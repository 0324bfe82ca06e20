-- ===== src/Net/Write/Coalesce/Order.antt =====
-- The bytes of the write loops of tcp_socket.go and kcp_socket.go, from the channel to the connection.
use gotu.Base.{
  ℕ, ◌≤◌, ◌≡◌, refl, sym, ap, ◌∙◌, Bool, true, false, List, [], ◌∷◌, ◌++◌, length, take, drop,
  concat, take-append-drop, append_assoc, append-nil, Bool-cases, inl, inr, leb, arith,
  length-append,
}
use gotu.Wire.{Bytes}
use gotu.Net.Handler.{write_chan_limit}
use gotu.Net.Write.{send_msg}
use gotu.Net.Write.Cases.{send_msg-cases}
use gotu.Net.Write.Coalesce.{
  Kind, tcp, kcp, Phase, waiting, collecting, writing, ended, Writer, new_writer, Action, send,
  shut, receive, wrote, sent, gathered, receive_in, written, wrote_in, step, steps,
}

-- What the loop holds and has not written.
abbrev pub unsent : Phase → Bytes
unsent waiting = []
unsent (collecting msg closed) = msg
unsent (writing msg closed) = msg
unsent (ended left) = left

-- Written, held by the loop and waiting bytes are the accepted ones in order, and no more messages
-- wait than the channel has room for.
abbrev pub IsOrdered : Writer → Type 0
IsOrdered w =
    (w.wire ++ (unsent w.phase ++ concat w.chan.queue) ≡ concat w.accepted)
    × (length w.chan.queue ≤ write_chan_limit)

concat-append : (xs ys : List Bytes) → concat (xs ++ ys) ≡ concat xs ++ concat ys
concat-append [] ys = refl
concat-append (x ∷ xs) ys =
    ap (λ t. x ++ t) (concat-append xs ys) ∙ sym (append_assoc x (concat xs) (concat ys))

concat-snoc : (xs : List Bytes) (x : Bytes) → concat (xs ++ (x ∷ [])) ≡ concat xs ++ x
concat-snoc xs x = concat-append xs (x ∷ []) ∙ ap (λ t. concat xs ++ t) (append-nil x)

unsent-gathered :
    (kind : Kind) (msg : Bytes) (closed : Bool) → unsent (gathered kind msg closed) ≡ msg
unsent-gathered tcp [] closed = refl
unsent-gathered tcp (b ∷ msg) closed = refl
unsent-gathered kcp msg closed = refl

unsent-written : (closed : Bool) → unsent (written closed) ≡ []
unsent-written true = refl
unsent-written false = refl

abbrev writer_at : Bool → Bytes → List Bytes → Phase → List Bytes → Writer
writer_at closed wire accepted phase queue = record {
  chan = record { queue = queue; closed = closed };
  phase = phase;
  wire = wire;
  accepted = accepted;
}

send-IsOrdered :
    (w : Writer) (pick : Bool) (m : Bytes)
    → IsOrdered w
    → IsOrdered (sent w m (send_msg write_chan_limit pick m w.chan))
send-IsOrdered w pick m (h, room) = elim (send_msg-cases write_chan_limit pick m w.chan) [
  | inl (e, less) ↦ rw e (
    ap (λ q. w.wire ++ (unsent w.phase ++ q)) (concat-snoc w.chan.queue m)
        ∙ ap (λ q. w.wire ++ q) (sym (append_assoc (unsent w.phase) (concat w.chan.queue) m))
        ∙ sym (append_assoc w.wire (unsent w.phase ++ concat w.chan.queue) m)
        ∙ ap (λ q. q ++ m) h
        ∙ sym (concat-snoc w.accepted m),
    omega (arith, less, length-append w.chan.queue (m ∷ [])),
  )
  | inr (error, e) ↦ rw e (h, room)
]

receive-IsOrdered :
    (kind : Kind) (prefer closed : Bool) (wire : Bytes) (acc : List Bytes) (phase : Phase)
    (queue : List Bytes)
    → IsOrdered (writer_at closed wire acc phase queue)
    → IsOrdered (receive_in kind prefer (writer_at closed wire acc phase queue) phase queue)
unfolding receive_in
receive-IsOrdered kind prefer true wire acc waiting [] h = h
receive-IsOrdered kind prefer false wire acc waiting [] h = h
receive-IsOrdered kind true true wire acc waiting (m ∷ queue) h = h
receive-IsOrdered kind false true wire acc waiting (m ∷ queue) (h, room) = (h, omega (arith, room))
receive-IsOrdered kind prefer false wire acc waiting (m ∷ queue) (h, room) =
    (h, omega (arith, room))
receive-IsOrdered kind prefer closed wire acc (collecting msg ret) [] (h, room) =
    (ap (λ t. wire ++ (t ++ [])) (unsent-gathered kind msg ret) ∙ h, room)
receive-IsOrdered kind prefer closed wire acc (collecting msg ret) (m ∷ queue) (h, room) =
    (ap (λ t. wire ++ t) (append_assoc msg m (concat queue)) ∙ h, omega (arith, room))
receive-IsOrdered kind prefer closed wire acc (writing msg ret) queue h = h
receive-IsOrdered kind prefer closed wire acc (ended left) queue h = h

-- A cut of what is being written does not show in the whole.
cut :
    (n : ℕ) (wire msg rest : Bytes)
    → (wire ++ take n msg) ++ (drop n msg ++ rest) ≡ wire ++ (msg ++ rest)
cut n wire msg rest =
    append_assoc wire (take n msg) (drop n msg ++ rest)
    ∙ ap (λ t. wire ++ t)
        (sym (append_assoc (take n msg) (drop n msg) rest)
          ∙ ap (λ t. t ++ rest) (take-append-drop n msg))

wrote-IsOrdered :
    (n : ℕ) (failed closed : Bool) (wire : Bytes) (acc : List Bytes) (phase : Phase)
    (queue : List Bytes)
    → IsOrdered (writer_at closed wire acc phase queue)
    → IsOrdered (wrote_in n failed (writer_at closed wire acc phase queue) phase)
unfolding wrote_in
wrote-IsOrdered n true closed wire acc (writing msg ret) queue (h, room) =
    (cut n wire msg (concat queue) ∙ h, room)
wrote-IsOrdered n false closed wire acc (writing msg ret) queue (h, room) =
    elim (Bool-cases (leb (length msg) n)) [
      | inl e ↦ rw e (
        ap (λ t. (wire ++ msg) ++ (t ++ concat queue)) (unsent-written ret)
            ∙ append_assoc wire msg (concat queue)
            ∙ h,
        room,
      )
      | inr e ↦ rw e (cut n wire msg (concat queue) ∙ h, room)
    ]
wrote-IsOrdered n true closed wire acc waiting queue h = h
wrote-IsOrdered n false closed wire acc waiting queue h = h
wrote-IsOrdered n true closed wire acc (collecting msg ret) queue h = h
wrote-IsOrdered n false closed wire acc (collecting msg ret) queue h = h
wrote-IsOrdered n true closed wire acc (ended left) queue h = h
wrote-IsOrdered n false closed wire acc (ended left) queue h = h

pub step-IsOrdered :
    (kind : Kind) (w : Writer) (a : Action) → IsOrdered w → IsOrdered (step kind w a)
unfolding step
step-IsOrdered kind w (send pick m) h = send-IsOrdered w pick m h
step-IsOrdered kind w shut h = h
step-IsOrdered kind w (receive prefer) h =
    receive-IsOrdered kind prefer w.chan.closed w.wire w.accepted w.phase w.chan.queue h
step-IsOrdered kind w (wrote n failed) h =
    wrote-IsOrdered n failed w.chan.closed w.wire w.accepted w.phase w.chan.queue h

steps-IsOrdered_from :
    (kind : Kind) (w : Writer) (actions : List Action)
    → IsOrdered w
    → IsOrdered (steps kind w actions)
unfolding steps
steps-IsOrdered_from kind w [] h = h
steps-IsOrdered_from kind w (a ∷ actions) h =
    steps-IsOrdered_from kind (step kind w a) actions (step-IsOrdered kind w a h)

-- In whatever order sends, the close and the loop's steps come, and whatever Write answers: the bytes
-- that were written, those that the loop holds and those that wait in the channel are together the
-- messages for which SendMsg returned nil, in the order of the calls; and at most 200 messages wait.
pub steps-IsOrdered :
    (kind : Kind) (actions : List Action) → IsOrdered (steps kind new_writer actions)
steps-IsOrdered kind actions = steps-IsOrdered_from kind new_writer actions (refl, omega arith)
