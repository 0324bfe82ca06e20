-- ===== src/Net/Write/Each/Order.antt =====
-- The messages of the write loops of udp_socket.go and websocket.go, from the channel to the
-- connection.
use gotu.Base.{
  ℕ, ◌≤◌, ◌≡◌, refl, sym, ap, ◌∙◌, Bool, true, false, List, [], ◌∷◌, ◌++◌, length, append_assoc,
  arith, length-append, inl, inr, if◌then◌else◌,
}
use gotu.Net.Write.{send_msg}
use gotu.Net.Write.Cases.{send_msg-cases}
use gotu.Net.Write.Each.{
  Phase, looking, writing, ended, Writer, new_writer, Action, send, shut, receive, wrote, sent,
  taken, receive_in, wrote_in, step, steps,
}

abbrev pub unsent : {M : Type 0} → Phase M → List M
unsent (looking closing) = []
unsent (writing m closing) = m ∷ []
unsent (ended left) = left

module _ {M : Type 0} (limit : ℕ) (is_nil : M → Bool) where
  -- Written, taken and waiting messages are the accepted ones, in order, and no more wait than the
  -- channel has room for.
  abbrev pub IsFifo : Writer M → Type 0
  IsFifo w =
      (w.wire ++ (unsent w.phase ++ w.chan.queue) ≡ w.accepted) × (length w.chan.queue ≤ limit)

  send-IsFifo :
      (w : Writer M) (pick : Bool) (m : M)
      → IsFifo w
      → IsFifo (sent limit is_nil w m (send_msg limit pick m w.chan))
  send-IsFifo w pick m (h, room) = elim (send_msg-cases limit pick m w.chan) [
    | inl (e, less) ↦ rw e (
      ap (λ q. w.wire ++ q) (sym (append_assoc (unsent w.phase) w.chan.queue (m ∷ [])))
          ∙ (sym (append_assoc w.wire (unsent w.phase ++ w.chan.queue) (m ∷ []))
              ∙ ap (λ q. q ++ (m ∷ [])) h),
      omega (arith, less, length-append w.chan.queue (m ∷ [])),
    )
    | inr (error, e) ↦ rw e (h, room)
  ]

  writer_at : Bool → List M → List M → Phase M → List M → Writer M
  writer_at closed wire accepted phase queue = record {
    chan = record { queue = queue; closed = closed };
    phase = phase;
    wire = wire;
    accepted = accepted;
  }

  unsent-taken :
      (m : M) (closing : Bool)
      → unsent (if is_nil m then ended (m ∷ []) else writing m closing) ≡ m ∷ []
  unsent-taken m closing = ground arith

  taken-IsFifo :
      (closed closing : Bool) (wire acc : List M) (m : M) (queue : List M)
      → IsFifo (writer_at closed wire acc (looking false) (m ∷ queue))
      → IsFifo (
          taken limit is_nil
            (writer_at closed wire acc (looking false) (m ∷ queue))
            m
            queue
            closing)
  unfolding writer_at
  taken-IsFifo closed closing wire acc m queue (h, room) =
      (ap (λ u. wire ++ (u ++ queue)) (unsent-taken m closing) ∙ h, omega (arith, room))

  receive-IsFifo :
      (prefer closed : Bool) (wire acc : List M) (phase : Phase M) (queue : List M)
      → IsFifo (writer_at closed wire acc phase queue)
      → IsFifo (receive_in limit is_nil prefer (writer_at closed wire acc phase queue) phase queue)
  unfolding writer_at receive_in
  receive-IsFifo prefer true wire acc (looking false) [] h = h
  receive-IsFifo prefer false wire acc (looking false) [] h = h
  receive-IsFifo true true wire acc (looking false) (m ∷ queue) h = h
  receive-IsFifo true false wire acc (looking false) (m ∷ queue) h =
      taken-IsFifo false false wire acc m queue h
  receive-IsFifo false closed wire acc (looking false) (m ∷ queue) h =
      taken-IsFifo closed false wire acc m queue h
  receive-IsFifo prefer closed wire acc (looking true) [] h = h
  receive-IsFifo prefer closed wire acc (looking true) (m ∷ queue) h =
      taken-IsFifo closed true wire acc m queue h
  receive-IsFifo prefer closed wire acc (writing m closing) queue h = h
  receive-IsFifo prefer closed wire acc (ended left) queue h = h

  wrote-IsFifo :
      (failed closed : Bool) (wire acc : List M) (phase : Phase M) (queue : List M)
      → IsFifo (writer_at closed wire acc phase queue)
      → IsFifo (wrote_in limit is_nil failed (writer_at closed wire acc phase queue) phase)
  unfolding writer_at wrote_in
  wrote-IsFifo true closed wire acc (writing m closing) queue h = h
  wrote-IsFifo false closed wire acc (writing m closing) queue (h, room) =
      (append_assoc wire (m ∷ []) queue ∙ h, room)
  wrote-IsFifo true closed wire acc (looking closing) queue h = h
  wrote-IsFifo false closed wire acc (looking closing) queue h = h
  wrote-IsFifo true closed wire acc (ended left) queue h = h
  wrote-IsFifo false closed wire acc (ended left) queue h = h

  pub step-IsFifo : (w : Writer M) (a : Action M) → IsFifo w → IsFifo (step limit is_nil w a)
  unfolding step writer_at
  step-IsFifo w (send pick m) h = send-IsFifo w pick m h
  step-IsFifo w shut h = h
  step-IsFifo w (receive prefer) h =
      receive-IsFifo prefer w.chan.closed w.wire w.accepted w.phase w.chan.queue h
  step-IsFifo w (wrote failed) h =
      wrote-IsFifo failed w.chan.closed w.wire w.accepted w.phase w.chan.queue h

  steps-IsFifo_from :
      (w : Writer M) (actions : List (Action M)) → IsFifo w → IsFifo (steps limit is_nil w actions)
  unfolding steps
  steps-IsFifo_from w [] h = h
  steps-IsFifo_from w (a ∷ actions) h =
      steps-IsFifo_from (step limit is_nil w a) actions (step-IsFifo w a h)

  -- In whatever order sends, the close and the loop's steps come, and whatever the writes answer: the
  -- messages that were written, the one that the loop holds and those that wait in the channel are
  -- together the messages that were accepted, in order, and no more wait than the channel has room for.
  pub steps-IsFifo : (actions : List (Action M)) → IsFifo (steps limit is_nil new_writer actions)
  steps-IsFifo actions = steps-IsFifo_from new_writer actions (refl, omega arith)
