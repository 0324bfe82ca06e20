-- ===== src/Net/Delivery.antt =====
-- From SendMsg at one end of a stream connection to the handler at the other end: the write loop of
-- the one socket, the bytes of the connection, the read loop of the other.
use gotu.Base.{
  ℕ, ◌≤◌, ◌≡◌, refl, sym, ap, ◌∙◌, Bool, true, Option, List, [], ◌∷◌, ◌++◌, map, append_assoc,
  append-nil, concat, All, Error, subst, ap₂,
}
use gotu.Wire.{Bytes}
use gotu.Net.Handler.{OnHandlerOnce}
use gotu.Net.Stream.{Reader, read_loop}
use gotu.Net.Stream.Chunks.{loop_view, chunks, payloads}
use gotu.Net.Stream.Frames.{IsPartial, IsFramed, deliver}
use gotu.Net.Stream.Frames.Arrive.{read_loop-frames}
use gotu.Net.Stream.Frames.Consumed.{All-parts}
use gotu.Net.Stream.Frames.Split.{split}
use gotu.Net.Write.Coalesce.{Kind, new_writer, Action, steps}
use gotu.Net.Write.Coalesce.Order.{unsent, steps-IsOrdered}
use gotu.Net.Write.Coalesce.Flush.{drive, steps_left, IsLive, drive-IsFlushed}
use gotu.Net.Write.Coalesce.Accepted.{Sends, accepted-All, accepted-drive}

module _ {M : Type 0} (frame : M → Bytes) (Fits : M → Type 0) where
  -- The bytes that SendMsg is given when it sends one message.
  abbrev pub IsFrame : Bytes → Type 0
  IsFrame bytes = (m : M) × Fits m × (bytes ≡ frame m)

  -- Messages whose frames are these pieces of bytes.
  pub record Unframed (pieces : List Bytes) : Type 0 where
    pub list : List M
    pub fits : All Fits list
    pub framed : pieces ≡ map frame list

  pub unframed : (pieces : List Bytes) → All IsFrame pieces → Unframed pieces
  unframed [] h = record { list = []; fits = tt; framed = refl }
  unframed (piece ∷ pieces) ((m, fits, e), h) =
      let rest = unframed pieces h in
      record {
        list = m ∷ rest.list;
        fits = (fits, rest.fits);
        framed = ap₂ (λ x xs. x ∷ xs) e rest.framed;
      }

module _ {ℓ} {S : Type ℓ} {M : Type 0} {on_msg : OnHandlerOnce S} {frame : M → Bytes}
    {act : S → M → S × Option Error} {Good : S → Type 0} {Fits : M → Type 0}
    (framed : IsFramed on_msg frame act Good Fits (IsPartial frame Fits)) where
  -- What the reader made of a part of what the writer accepted: the messages that arrived are the
  -- first of those that were accepted.
  pub record Received (accepted : List Bytes) (r : Reader S) (cs : List (Bytes × Bytes))
      : Type ℓ where
    pub arrived : List M
    pub later : List M
    pub part : Bytes
    pub in_order : accepted ≡ map frame (arrived ++ later)
    pub is_partial : IsPartial frame Fits part
    pub read : payloads cs ≡ concat (map frame arrived) ++ part
    pub done : loop_view (read_loop on_msg r (chunks cs)) ≡ deliver act part r.state arrived

  pub delivery :
      (kind : Kind) (actions : List Action) (r : Reader S) (cs : List (Bytes × Bytes))
      (unread : Bytes)
      → All (Sends (IsFrame frame Fits)) actions
      → Good r.state
      → r.read_caches ≡ []
      → IsPartial frame Fits []
      → payloads cs ++ unread ≡ (steps kind new_writer actions).wire
      → Received (steps kind new_writer actions).accepted r cs
  delivery kind actions r cs unread h g fresh empty same =
      let w = steps kind new_writer actions in
      let ms = unframed frame Fits w.accepted (accepted-All (IsFrame frame Fits) kind actions h) in
      let after = unread ++ (unsent w.phase ++ concat w.chan.queue) in
      let whole : payloads cs ++ after ≡ concat (map frame ms.list) ++ [] =
        sym (append_assoc (payloads cs) unread (unsent w.phase ++ concat w.chan.queue))
        ∙ ap (λ t. t ++ (unsent w.phase ++ concat w.chan.queue)) same
        ∙ (steps-IsOrdered kind actions).0
        ∙ ap concat ms.framed
        ∙ sym (append-nil (concat (map frame ms.list))) in
      let cut = split frame Fits ms.list (payloads cs) after [] ms.fits empty whole in
      record {
        arrived = cut.arrived;
        later = cut.later;
        part = cut.open_part;
        in_order = ms.framed ∙ ap (map frame) (sym cut.in_order);
        is_partial = cut.is_partial;
        read = cut.before_is;
        done =
            read_loop-frames framed cs r cut.arrived cut.open_part g
              (subst (IsPartial frame Fits) (sym fresh) empty)
              (All-parts Fits cut.arrived cut.later (subst (All Fits) (sym cut.in_order) ms.fits)).0
              cut.is_partial (ap (λ t. t ++ payloads cs) fresh ∙ cut.before_is);
      }

  -- Everything that was accepted.
  pub record ReceivedAll (accepted : List Bytes) (r : Reader S) (cs : List (Bytes × Bytes))
      : Type ℓ where
    pub arrived : List M
    pub in_order : accepted ≡ map frame arrived
    pub done : loop_view (read_loop on_msg r (chunks cs)) ≡ deliver act [] r.state arrived

  pub flushed_delivery :
      (kind : Kind) (prefer : Bool) (n : ℕ) (actions : List Action) (r : Reader S)
      (cs : List (Bytes × Bytes))
      → All (Sends (IsFrame frame Fits)) actions
      → (steps kind new_writer actions).chan.closed ≡ true
      → IsLive (steps kind new_writer actions).phase (steps kind new_writer actions).chan.queue
      → steps_left (steps kind new_writer actions) ≤ n
      → Good r.state
      → r.read_caches ≡ []
      → IsPartial frame Fits []
      → payloads cs ≡ (drive n kind prefer (steps kind new_writer actions)).wire
      → ReceivedAll (steps kind new_writer actions).accepted r cs
  flushed_delivery kind prefer n actions r cs h c live k g fresh empty same =
      let w = steps kind new_writer actions in
      let ms = unframed frame Fits w.accepted (accepted-All (IsFrame frame Fits) kind actions h) in
      record {
        arrived = ms.list;
        in_order = ms.framed;
        done =
            read_loop-frames framed cs r ms.list [] g
              (subst (IsPartial frame Fits) (sym fresh) empty) ms.fits empty
              (ap (λ t. t ++ payloads cs) fresh
                ∙ same
                ∙ (drive-IsFlushed n kind prefer actions c live k).2
                ∙ ap concat (accepted-drive n kind prefer w ∙ ms.framed)
                ∙ sym (append-nil (concat (map frame ms.list))));
      }
