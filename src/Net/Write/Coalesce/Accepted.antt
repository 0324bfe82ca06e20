-- ===== src/Net/Write/Coalesce/Accepted.antt =====
-- The messages for which SendMsg returned nil, in the write loops that gather.
use gotu.Base.{
  ℕ, ◌≡◌, refl, sym, ◌∙◌, Bool, true, false, List, [], ◌∷◌, ◌++◌, All, subst, inl, inr, leb, length,
  if_both, zero, suc,
}
use gotu.Wire.{Bytes}
use gotu.Net.Handler.{write_chan_limit}
use gotu.Net.Write.Cases.{send_msg-cases}
use gotu.Net.Write.Coalesce.{
  Kind, Phase, waiting, collecting, writing, ended, Writer, new_writer, Action, send, shut, receive,
  wrote, receive_in, wrote_in, step, steps,
}
use gotu.Net.Write.Coalesce.Flush.{next_action, drive}

accepted-receive_in :
    (kind : Kind) (prefer : Bool) (w : Writer) (phase : Phase) (queue : List Bytes)
    → (receive_in kind prefer w phase queue).accepted ≡ w.accepted
unfolding receive_in
accepted-receive_in kind prefer w waiting [] =
    if_both (λ (v : Writer). v.accepted ≡ w.accepted) w.chan.closed refl refl
accepted-receive_in kind prefer w waiting (m ∷ queue) =
    if_both (λ (v : Writer). v.accepted ≡ w.accepted) w.chan.closed
      (if_both (λ (v : Writer). v.accepted ≡ w.accepted) prefer refl refl) refl
accepted-receive_in kind prefer w (collecting msg closed) [] = refl
accepted-receive_in kind prefer w (collecting msg closed) (m ∷ queue) = refl
accepted-receive_in kind prefer w (writing msg closed) queue = refl
accepted-receive_in kind prefer w (ended left) queue = refl

accepted-wrote_in :
    (n : ℕ) (failed : Bool) (w : Writer) (phase : Phase)
    → (wrote_in n failed w phase).accepted ≡ w.accepted
unfolding wrote_in
accepted-wrote_in n true w (writing msg closed) = refl
accepted-wrote_in n false w (writing msg closed) =
    if_both (λ (v : Writer). v.accepted ≡ w.accepted) (leb (length msg) n) refl refl
accepted-wrote_in n true w waiting = refl
accepted-wrote_in n false w waiting = refl
accepted-wrote_in n true w (collecting msg closed) = refl
accepted-wrote_in n false w (collecting msg closed) = refl
accepted-wrote_in n true w (ended left) = refl
accepted-wrote_in n false w (ended left) = refl

-- The loop accepts nothing by itself.
pub accepted-drive :
    (n : ℕ) (kind : Kind) (prefer : Bool) (w : Writer)
    → (drive n kind prefer w).accepted ≡ w.accepted
unfolding drive step
accepted-drive zero kind prefer w = refl
accepted-drive (suc n) kind prefer w =
    accepted-drive n kind prefer (step kind w (next_action prefer w.phase)) ∙ own w.phase refl
  where
    own : (p : Phase) → w.phase ≡ p → (step kind w (next_action prefer p)).accepted ≡ w.accepted
    own (writing msg closed) e = accepted-wrote_in (length msg) false w w.phase
    own waiting e = accepted-receive_in kind prefer w w.phase w.chan.queue
    own (collecting msg closed) e = accepted-receive_in kind prefer w w.phase w.chan.queue
    own (ended left) e = accepted-receive_in kind prefer w w.phase w.chan.queue

module _ (P : Bytes → Type 0) where
  -- What a call of SendMsg is given.
  abbrev pub Sends : Action → Type 0
  Sends (send pick m) = P m
  Sends _ = Unit

  All-snoc : (xs : List Bytes) (x : Bytes) → All P xs → P x → All P (xs ++ (x ∷ []))
  All-snoc [] x h p = (p, tt)
  All-snoc (y ∷ xs) x (q, h) p = (q, All-snoc xs x h p)

  All-step :
      (kind : Kind) (w : Writer) (a : Action)
      → Sends a
      → All P w.accepted
      → All P (step kind w a).accepted
  unfolding step
  All-step kind w (send pick m) p h = elim (send_msg-cases write_chan_limit pick m w.chan) [
    | inl (e, less) ↦ rw e (All-snoc w.accepted m h p)
    | inr (error, e) ↦ rw e h
  ]
  All-step kind w shut p h = h
  All-step kind w (receive prefer) p h =
      subst (All P) (sym (accepted-receive_in kind prefer w w.phase w.chan.queue)) h
  All-step kind w (wrote n failed) p h =
      subst (All P) (sym (accepted-wrote_in n failed w w.phase)) h

  All-steps :
      (kind : Kind) (w : Writer) (actions : List Action)
      → All Sends actions
      → All P w.accepted
      → All P (steps kind w actions).accepted
  unfolding steps
  All-steps kind w [] p h = h
  All-steps kind w (a ∷ actions) (p, ps) h =
      All-steps kind (step kind w a) actions ps (All-step kind w a p h)

  -- What holds of every message that is sent holds of every one that is accepted.
  pub accepted-All :
      (kind : Kind) (actions : List Action)
      → All Sends actions
      → All P (steps kind new_writer actions).accepted
  accepted-All kind actions h = All-steps kind new_writer actions h tt
