-- ===== src/Net/Write/Coalesce/Losses.antt =====
-- Sends to the write loops of tcp_socket.go and kcp_socket.go that meet the end of the loop.
use gotu.Base.{
  ◌<◌, ◌≡◌, refl, sym, ap, ◌∙◌, Bool, true, false, none, List, [], ◌∷◌, ◌++◌, length, inl, inr,
  subst, lt→ltb,
}
use gotu.Wire.{Bytes}
use gotu.Net.Handler.{write_chan_limit}
use gotu.Net.Write.{Channel, send_msg}
use gotu.Net.Write.Coalesce.{
  Kind, tcp, waiting, writing, ended, Writer, Action, send, shut, receive, wrote, sent, receive_in,
  wrote_in, step, steps,
}
use gotu.Net.Write.Cases.{send_msg-cases}
use gotu.Net.Write.Coalesce.Flush.{wrote_whole}

abbrev IsEndedLike : Bytes → Writer → Writer → Type 0
IsEndedLike left w w' = (w'.phase ≡ ended left) × (w'.wire ≡ w.wire)

step_ended :
    (kind : Kind) (w : Writer) (left : Bytes) (a : Action)
    → w.phase ≡ ended left
    → IsEndedLike left w (step kind w a)
unfolding step receive_in wrote_in
step_ended kind w left (send pick m) h = elim (send_msg-cases write_chan_limit pick m w.chan) [
  | inl (e, room) ↦ subst (λ r. IsEndedLike left w (sent w m r)) (sym e) (h, refl)
  | inr (error, e) ↦ subst (λ r. IsEndedLike left w (sent w m r)) (sym e) (h, refl)
]
step_ended kind w left shut h = (h, refl)
step_ended kind w left (receive prefer) h =
    subst (λ p. IsEndedLike left w (receive_in kind prefer w p w.chan.queue)) (sym h) (h, refl)
step_ended kind w left (wrote n true) h =
    subst (λ p. IsEndedLike left w (wrote_in n true w p)) (sym h) (h, refl)
step_ended kind w left (wrote n false) h =
    subst (λ p. IsEndedLike left w (wrote_in n false w p)) (sym h) (h, refl)

ended-wire :
    (kind : Kind) (w : Writer) (left : Bytes) (actions : List Action)
    → w.phase ≡ ended left
    → (steps kind w actions).wire ≡ w.wire
unfolding steps
ended-wire kind w left [] h = refl
ended-wire kind w left (a ∷ actions) h =
    let (still, same) = step_ended kind w left a h in
    ended-wire kind (step kind w a) left actions still ∙ same

abbrev after_empty : Bytes → List Bytes → Writer
after_empty wire acc = record {
  chan = record { queue = []; closed = false };
  phase = ended [];
  wire = wire;
  accepted = acc ++ ([] ∷ []);
}

abbrev three : Bool → Bool → Bool → List Action
three pick prefer prefer' = send pick [] ∷ receive prefer ∷ receive prefer' ∷ []

empty_steps :
    (wire : Bytes) (acc : List Bytes) (pick prefer prefer' : Bool)
    → steps tcp
        (record {
          chan = record { queue = []; closed = false };
          phase = waiting;
          wire = wire;
          accepted = acc;
        })
        (three pick prefer prefer')
      ≡ after_empty wire acc
unfolding steps step receive_in send_msg
empty_steps wire acc true prefer prefer' = refl
empty_steps wire acc false prefer prefer' = refl

send_accepted :
    (m : Bytes) (c : Channel Bytes)
    → length c.queue < write_chan_limit
    → send_msg write_chan_limit true m c ≡ (record c { queue = c.queue ++ (m ∷ []) }, none)
unfolding send_msg
send_accepted m c room = rw (lt→ltb _ _ room) refl

late_steps :
    (kind : Kind) (w : Writer) (msg m : Bytes)
    → length w.chan.queue < write_chan_limit
    → steps kind
        (record w { phase = writing msg true })
        (send true m ∷ wrote (length msg) false ∷ [])
      ≡ record {
        chan = record w.chan { queue = w.chan.queue ++ (m ∷ []) };
        phase = ended [];
        wire = w.wire ++ msg;
        accepted = w.accepted ++ (m ∷ []);
      }
unfolding steps step
late_steps kind w msg m room =
    let sending = record w { phase = writing msg true } in
    ap (λ r. step kind (sent sending m r) (wrote (length msg) false)) (send_accepted m w.chan room)
    ∙ wrote_whole kind
        (record w {
          chan = record w.chan { queue = w.chan.queue ++ (m ∷ []) };
          accepted = w.accepted ++ (m ∷ []);
        })
        msg true

-- An empty message that a TCP socket sends while its loop waits with nothing queued is accepted, and
-- ends the loop, though nobody closed the socket: whatever is sent or done later, nothing more is
-- written.
pub empty_message_ends :
    (w : Writer) (pick prefer prefer' : Bool) (actions : List Action)
    → w.phase ≡ waiting
    → w.chan ≡ record { queue = []; closed = false }
    → let w' = steps tcp w (send pick [] ∷ receive prefer ∷ receive prefer' ∷ []) in
      (w'.accepted ≡ w.accepted ++ ([] ∷ []))
      × (w'.chan.closed ≡ false)
      × ((steps tcp w' actions).wire ≡ w.wire)
empty_message_ends w pick prefer prefer' actions p c =
    let same : steps tcp w (three pick prefer prefer') ≡ after_empty w.wire w.accepted =
      ap (λ v. steps tcp v (three pick prefer prefer')) (λ i. record w { chan = c i; phase = p i })
      ∙ empty_steps w.wire w.accepted pick prefer prefer' in
    (
      ap (λ v. v.accepted) same,
      ap (λ v. v.chan.closed) same,
      ended-wire tcp _ [] actions (ap (λ v. v.phase) same) ∙ ap (λ v. v.wire) same,
    )

-- A message that is accepted while the last piece of a closed socket is being written is never
-- written, though SendMsg returned nil.
pub late_message_lost :
    (kind : Kind) (w : Writer) (msg m : Bytes) (actions : List Action)
    → w.phase ≡ writing msg true
    → length w.chan.queue < write_chan_limit
    → let w' = steps kind w (send true m ∷ wrote (length msg) false ∷ []) in
      (w'.accepted ≡ w.accepted ++ (m ∷ [])) × ((steps kind w' actions).wire ≡ w.wire ++ msg)
late_message_lost kind w msg m actions p room =
    let same =
      ap (λ v. steps kind v (send true m ∷ wrote (length msg) false ∷ []))
        (λ i. record w { phase = p i })
      ∙ late_steps kind w msg m room in
    (
      ap (λ v. v.accepted) same,
      ended-wire kind _ [] actions (ap (λ v. v.phase) same) ∙ ap (λ v. v.wire) same,
    )
