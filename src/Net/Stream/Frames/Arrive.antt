-- ===== src/Net/Stream/Frames/Arrive.antt =====
-- The read loop over reads that give frames: it delivers the messages whole, wherever the bytes are
-- cut.
use gotu.Base.{
  ◌≡◌, refl, sym, ap, ◌∙◌, Option, List, [], ◌∷◌, ◌++◌, map, append_assoc, append-nil, concat, All,
  Error, true_ne_false, subst,
}
use gotu.Wire.{Bytes}
use gotu.Net.Handler.{OnHandlerOnce}
use gotu.Net.Stream.{
  Reader, Outcome, Read, kept, failed, crashed, out_of_fuel, chunk, turn, read_loop,
}
use gotu.Net.Stream.Consume.{view, consume_all}
use gotu.Net.Stream.Chunks.{loop_view, chunks, payloads, turn-view}
use gotu.Net.Stream.Frames.{IsPartial, IsFramed, deliver}
use gotu.Net.Stream.Frames.Split.{Split, split}
use gotu.Net.Stream.Frames.Consumed.{
  All-parts, then_deliver, deliver-append, consume_all-frames, Ends, deliver-Ends, alone,
}

module _ {ℓ κ} {S : Type ℓ} {M : Type κ} {on_msg : OnHandlerOnce S} {frame : M → Bytes}
    {act : S → M → S × Option Error} {Good : S → Type 0} {Fits : M → Type 0} {Cut : Bytes → Type κ}
    (framed : IsFramed on_msg frame act Good Fits Cut) where
  -- One read: the cache with the new bytes is some whole frames and a part, and the loop goes on with
  -- the part in its cache.
  read_loop-next :
      (r : Reader S) (buf bytes : Bytes) (events : List Read) (ms later : List M)
      (open_part left : Bytes)
      → Good r.state
      → All Fits ms
      → Cut open_part
      → r.read_caches ++ bytes ≡ concat (map frame ms) ++ open_part
      → ((r' : Reader S)
          → Good r'.state
          → r'.read_caches ≡ open_part
          → loop_view (read_loop on_msg r' events) ≡ deliver act left r'.state later)
      → loop_view (read_loop on_msg r (chunk buf bytes ∷ events))
        ≡ deliver act left r.state (ms ++ later)
  unfolding read_loop
  read_loop-next r buf bytes events ms later open_part left g v p e ih =
      after (turn on_msg r buf bytes) refl
    where
      seen :
          (o : Outcome (Reader S))
          → turn on_msg r buf bytes ≡ o
          → deliver act open_part r.state ms ≡ view o
      seen o h =
          sym (consume_all-frames framed ms r.state open_part g v p)
          ∙ ap (consume_all on_msg r.state) (sym e)
          ∙ sym (turn-view on_msg r buf bytes)
          ∙ ap view h

      whole :
          (o : Outcome (Reader S))
          → turn on_msg r buf bytes ≡ o
          → then_deliver act left later (view o) ≡ deliver act left r.state (ms ++ later)
      whole o h =
          sym (ap (then_deliver act left later) (seen o h))
          ∙ sym (deliver-append act ms later r.state open_part left)

      end : (o : Outcome (Reader S)) → turn on_msg r buf bytes ≡ o → Ends framed open_part (view o)
      end o h =
          subst (Ends framed open_part) (seen o h) (deliver-Ends framed ms r.state open_part g v)

      after :
          (o : Outcome (Reader S))
          → turn on_msg r buf bytes ≡ o
          → loop_view (read_loop on_msg r (chunk buf bytes ∷ events))
            ≡ deliver act left r.state (ms ++ later)
      after (kept r') h =
          rw (h, read_loop) (ih r' (end (kept r') h).0 (end (kept r') h).1 ∙ whole (kept r') h)
      after (failed r' x) h = rw (h, read_loop) (whole (failed r' x) h)
      after crashed h = absurd (true_ne_false (end crashed h))
      after out_of_fuel h = absurd (true_ne_false (end out_of_fuel h))

  -- Reads of which each ends behind whole frames and a part that may be cut off: the cache, the
  -- reads, the messages, and the part that is left.
  pub data Reads : Bytes → List (Bytes × Bytes) → List M → Bytes → Type κ where
    nothing : (part : Bytes) → Reads part [] [] part
    then_read :
        (cache buf bytes part left : Bytes) (cs : List (Bytes × Bytes)) (ms later : List M)
        → All Fits ms
        → Cut part
        → cache ++ bytes ≡ concat (map frame ms) ++ part
        → Reads part cs later left
        → Reads cache ((buf, bytes) ∷ cs) (ms ++ later) left

  -- Over such reads the loop does what the delivery of the messages in order does.
  pub read_loop-Reads :
      {cache left : Bytes} {cs : List (Bytes × Bytes)} {ms : List M} (r : Reader S)
      → Reads cache cs ms left
      → Good r.state
      → r.read_caches ≡ cache
      → loop_view (read_loop on_msg r (chunks cs)) ≡ deliver act left r.state ms
  unfolding read_loop deliver
  read_loop-Reads r (nothing part) g e = ap (λ t. kept (r.state, t)) e
  read_loop-Reads r (then_read cache buf bytes part left cs ms later v p same next) g e =
      read_loop-next r buf bytes (chunks cs) ms later part left g v p
        (ap (λ t. t ++ bytes) e ∙ same) (λ r' g' e'. read_loop-Reads r' next g' e')

module _ {ℓ κ} {S : Type ℓ} {M : Type κ} {on_msg : OnHandlerOnce S} {frame : M → Bytes}
    {act : S → M → S × Option Error} {Good : S → Type 0} {Fits : M → Type 0}
    (framed : IsFramed on_msg frame act Good Fits (IsPartial frame Fits)) where
  -- Reads that together give whole frames and a part of one more, however the bytes are cut: the
  -- read loop does what the delivery of the messages in order does, and keeps the part.
  pub read_loop-frames :
      (cs : List (Bytes × Bytes)) (r : Reader S) (ms : List M) (part : Bytes)
      → Good r.state
      → IsPartial frame Fits r.read_caches
      → All Fits ms
      → IsPartial frame Fits part
      → r.read_caches ++ payloads cs ≡ concat (map frame ms) ++ part
      → loop_view (read_loop on_msg r (chunks cs)) ≡ deliver act part r.state ms
  unfolding read_loop
  read_loop-frames [] r ms part g c v p e =
      sym (alone framed ms r.state r.read_caches part g v c (sym (append-nil r.read_caches) ∙ e))
  read_loop-frames ((buf, bytes) ∷ cs) r ms part g c v p e =
      let cut : Split frame Fits (r.read_caches ++ bytes) (payloads cs) part ms =
        split frame Fits ms (r.read_caches ++ bytes) (payloads cs) part v p
          (append_assoc r.read_caches bytes (payloads cs) ∙ e) in
      let fits : All Fits cut.arrived × All Fits cut.later =
        All-parts Fits cut.arrived cut.later (subst (All Fits) (sym cut.in_order) v) in
      read_loop-next framed r buf bytes (chunks cs) cut.arrived cut.later cut.open_part part g
        fits.0 cut.is_partial cut.before_is
        (λ r' g' e'.
          read_loop-frames cs r' cut.later part g'
            (subst (IsPartial frame Fits) (sym e') cut.is_partial) fits.1 p
            (ap (λ t. t ++ payloads cs) e' ∙ cut.after_is))
      ∙ ap (deliver act part r.state) cut.in_order
