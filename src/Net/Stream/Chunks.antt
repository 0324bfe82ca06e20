-- ===== src/Net/Stream/Chunks.antt =====
-- However the network cuts the bytes into reads, the read loop does the same.
use gotu.Base.{
  ℕ, zero, suc, ◌≤◌, ◌<◌, ◌≡◌, refl, sym, ap, ◌∙◌, none, some, List, [], ◌∷◌, ◌++◌, append-nil,
  append_assoc, length, drop, arith, length-drop, length-append, drop-append, ◌≢◌,
}
use gotu.Wire.{Bytes}
use gotu.Net.Handler.{handled, OnHandlerOnce, IsStable, answer, panics, fails, waits, consumes}
use gotu.Net.Stream.{
  Reader, Outcome, kept, failed, crashed, out_of_fuel, Read, chunk, Loop, reading, ended, died,
  receive, turn, read_loop,
}
use gotu.Net.Stream.Consume.{
  View, view, view-drain, consume_all, resume, consume_all-next, consume_all-wait, consume_all-fail,
  consume_all-crash, consume_all-ne-out_of_fuel,
}

module _ {ℓ} {S : Type ℓ} {on_msg : OnHandlerOnce S} (stable : IsStable on_msg) where
  consume-append :
      (f : ℕ) (s : S) (msg more : Bytes)
      → length msg < f
      → consume_all on_msg s (msg ++ more) ≡ resume on_msg (consume_all on_msg s msg) more
  consume-append zero s msg more h = absurd (omega arith)
  consume-append (suc f) s msg more h = elim (answer (on_msg s msg)) [
    | panics e ↦ rw (
      consume_all-crash on_msg s msg e,
      consume_all-crash on_msg s (msg ++ more) (stable.crash s msg more e),
    )
    | fails s' zero x e ↦ cc ((stable.idle s msg s' (some x) e).1)
    | fails s' (suc n) x e ↦ rw (
      consume_all-fail on_msg s s' msg (suc n) x e,
      consume_all-fail on_msg s s' (msg ++ more) (suc n) x
          (stable.extend s msg more s' n (some x) e),
    )
    | waits s' e ↦ rw (consume_all-wait on_msg s s' msg e, (stable.idle s msg s' none e).0)
    | consumes s' n e ↦
        let b : suc n ≤ length msg = stable.bounds s msg s' (suc n) none e in
        rw
          (
            consume_all-next on_msg s s' msg n e b,
            consume_all-next on_msg s s' (msg ++ more) n (stable.extend s msg more s' n none e)
                (omega (arith, length-append msg more)),
            drop-append (suc n) msg more b,
          )
          (consume-append f s' (drop (suc n) msg) more (omega (arith, length-drop (suc n) msg)))
  ]

  rests :
      (f : ℕ) (s s' : S) (msg left : Bytes)
      → length msg < f
      → consume_all on_msg s msg ≡ kept (s', left)
      → on_msg s' left ≡ handled s' 0 none
  rests zero s s' msg left h k = absurd (omega arith)
  rests (suc f) s s' msg left h k = elim (answer (on_msg s msg)) [
    | panics e ↦ cc (sym (consume_all-crash on_msg s msg e) ∙ k)
    | fails t n x e ↦ cc (sym (consume_all-fail on_msg s t msg n x e) ∙ k)
    | waits t e ↦
        ground (arith, sym (consume_all-wait on_msg s t msg e) ∙ k, stable.idle s msg t none e)
    | consumes t n e ↦
        let b : suc n ≤ length msg = stable.bounds s msg t (suc n) none e in
        rests f t s' (drop (suc n) msg) left (omega (arith, length-drop (suc n) msg))
          (sym (consume_all-next on_msg s t msg n e b) ∙ k)
  ]

  -- What the inner loop keeps holds no whole message.
  consume_all-rests :
      (s s' : S) (msg left : Bytes)
      → consume_all on_msg s msg ≡ kept (s', left)
      → on_msg s' left ≡ handled s' 0 none
  consume_all-rests s s' msg left k = rests (suc (length msg)) s s' msg left (omega arith) k

  -- Consuming some bytes and then more is consuming them at once.
  consume_all-append :
      (s : S) (msg more : Bytes)
      → consume_all on_msg s (msg ++ more) ≡ resume on_msg (consume_all on_msg s msg) more
  consume_all-append s msg more = consume-append (suc (length msg)) s msg more (omega arith)

-- Where a read loop stands, without the pool and what it logs.
abbrev pub loop_view {ℓ} : {S : Type ℓ} → Loop (Reader S) → Outcome (View S)
loop_view (reading r) = kept (r.state, r.read_caches)
loop_view (ended r (some e)) = failed (r.state, []) e
loop_view (ended r none) = kept (r.state, r.read_caches)
loop_view died = crashed

-- Reads of data: the buffer of the pool and what was read into it.
abbrev pub chunks : List (Bytes × Bytes) → List Read
chunks [] = []
chunks ((buf, bytes) ∷ cs) = chunk buf bytes ∷ chunks cs

abbrev pub payloads : List (Bytes × Bytes) → Bytes
payloads [] = []
payloads ((buf, bytes) ∷ cs) = bytes ++ payloads cs

module _ {ℓ} {S : Type ℓ} (on_msg : OnHandlerOnce S) where
  pub turn-view :
      (r : Reader S) (buf bytes : Bytes)
      → view (turn on_msg r buf bytes) ≡ consume_all on_msg r.state (r.read_caches ++ bytes)
  unfolding turn receive consume_all
  turn-view r buf bytes =
      view-drain on_msg (suc (length (r.read_caches ++ bytes))) (receive r buf bytes)

  -- One turn of the read loop ends, whatever was read, within one round more than the bytes that it
  -- has.
  pub turn-ne-out_of_fuel :
      (r : Reader S) (buf bytes : Bytes) → turn on_msg r buf bytes ≢ out_of_fuel
  turn-ne-out_of_fuel r buf bytes e =
      consume_all-ne-out_of_fuel on_msg r.state (r.read_caches ++ bytes)
        (sym (turn-view r buf bytes) ∙ ap view e)

module _ {ℓ} {S : Type ℓ} {on_msg : OnHandlerOnce S} (stable : IsStable on_msg) where
  -- The read loop over any reads of data does what the inner loop does on all the bytes at once,
  -- those that were kept before in front. `at_rest` says that the cache holds no whole message.
  pub read_loop-chunks :
      (r : Reader S) (cs : List (Bytes × Bytes))
      → on_msg r.state r.read_caches ≡ handled r.state 0 none
      → loop_view (read_loop on_msg r (chunks cs))
        ≡ consume_all on_msg r.state (r.read_caches ++ payloads cs)
  unfolding read_loop
  read_loop-chunks r [] at_rest =
      rw (append-nil r.read_caches, consume_all-wait on_msg r.state r.state r.read_caches at_rest)
  read_loop-chunks r ((buf, bytes) ∷ cs) at_rest =
      rw (← append_assoc r.read_caches bytes (payloads cs)) (
        rw (consume_all-append stable r.state (r.read_caches ++ bytes) (payloads cs))
          (after (λ r'. read_loop-chunks r' cs) (turn on_msg r buf bytes) refl))
    where
      seen :
          (o : Outcome (Reader S))
          → turn on_msg r buf bytes ≡ o
          → consume_all on_msg r.state (r.read_caches ++ bytes) ≡ view o
      seen o e = sym (turn-view on_msg r buf bytes) ∙ ap view e

      after :
          ((r' : Reader S)
            → on_msg r'.state r'.read_caches ≡ handled r'.state 0 none
            → loop_view (read_loop on_msg r' (chunks cs))
              ≡ consume_all on_msg r'.state (r'.read_caches ++ payloads cs))
          → (o : Outcome (Reader S)) → turn on_msg r buf bytes ≡ o
          → loop_view (read_loop on_msg r (chunk buf bytes ∷ chunks cs))
            ≡ resume on_msg (consume_all on_msg r.state (r.read_caches ++ bytes)) (payloads cs)
      after ih (kept r') e = rw (seen (kept r') e) (
          rw (e, read_loop)
            (ih r' (
              consume_all-rests stable r.state r'.state (r.read_caches ++ bytes) r'.read_caches
                (seen (kept r') e))))
      after ih (failed r' x) e = rw (seen (failed r' x) e) (rw (e, read_loop))
      after ih crashed e = rw (seen crashed e) (rw (e, read_loop))
      after ih out_of_fuel e =
          absurd (
            consume_all-ne-out_of_fuel on_msg r.state (r.read_caches ++ bytes) (seen out_of_fuel e))
