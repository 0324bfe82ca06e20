-- ===== src/Net/Socket/Ends.antt =====
-- The ends of the two loops of a socket (tcp_socket.go, kcp_socket.go, websocket.go, udp_socket.go).
use gotu.Base.{
  ℕ, zero, suc, ◌≤◌, ◌≡◌, refl, sym, ap, ◌∙◌, subst, true, List, [], ◌∷◌, if◌then◌else◌, arith,
  length, if_both,
}
use gotu.Net.Socket.{
  Kind, Op, Phase, looping, unwinding, Socket, read_defers, write_defers, Action, read_end,
  write_end, read_on, write_on, read_over, write_over, read_next, write_next, read_fails, step,
  steps,
}
use gotu.Net.Socket.Even.{left_of}
use gotu.Net.Socket.Steps.{perform-reader, perform-writer}
use gotu.Net.Socket.Tidy.{IsKept}

-- The loop is over, and `n` of what it deferred, at most, is left.
abbrev pub IsOver : ℕ → Phase → Type 0
IsOver n p = (ops : List Op) × (p ≡ unwinding ops) × (length ops ≤ n)

read_over-IsOver :
    (kind : Kind) (s : Socket) (r : Phase)
    → s.reader ≡ r
    → length (left_of (read_defers kind) r) ≤ 4
    → IsOver 4 (read_over kind s r).reader
unfolding read_over
read_over-IsOver kind s looping e l = (read_defers kind, refl, l)
read_over-IsOver kind s (unwinding ops) e l = (ops, e, l)

write_over-IsOver :
    (kind : Kind) (s : Socket) (w : Phase)
    → s.writer ≡ w
    → length (left_of (write_defers kind) w) ≤ 3
    → IsOver 3 (write_over kind s w).writer
unfolding write_over
write_over-IsOver kind s looping e l = (write_defers kind, refl, l)
write_over-IsOver kind s (unwinding ops) e l = (ops, e, l)

pub read_end-IsOver :
    (kind : Kind) (s : Socket)
    → IsKept kind s
    → read_fails kind s ≡ true
    → IsOver 4 (step kind s read_end).reader
unfolding step
read_end-IsOver kind s (lr, lw, ts, tc) h =
    subst (λ b. IsOver 4 (if b then read_over kind s s.reader else s).reader) (sym h)
      (read_over-IsOver kind s s.reader refl lr)

pub write_end-IsOver :
    (kind : Kind) (s : Socket)
    → IsKept kind s
    → s.close_ch ≡ true
    → IsOver 3 (step kind s write_end).writer
unfolding step
write_end-IsOver kind s (lr, lw, ts, tc) h =
    subst (λ b. IsOver 3 (if b then write_over kind s s.writer else s).writer) (sym h)
      (write_over-IsOver kind s s.writer refl lw)

-- The reader goes through what it deferred, and the writer stays where it is.
abbrev pub again : ℕ → Action → List Action
again zero a = []
again (suc n) a = a ∷ again n a

read_next_lem :
    (kind : Kind) (n : ℕ) (s : Socket) (ops : List Op)
    → length ops ≤ suc n
    → s.reader ≡ unwinding ops
    → IsOver n (read_next kind s (unwinding ops)).reader
unfolding read_next
read_next_lem kind n s [] l e = ([], e, omega arith)
read_next_lem kind n s (op ∷ ops) l e =
    (ops, perform-reader kind op (record s { reader = unwinding ops }), omega (arith, l))

write_next_lem :
    (kind : Kind) (n : ℕ) (s : Socket) (ops : List Op)
    → length ops ≤ suc n
    → s.writer ≡ unwinding ops
    → IsOver n (write_next kind s (unwinding ops)).writer
unfolding write_next
write_next_lem kind n s [] l e = ([], e, omega arith)
write_next_lem kind n s (op ∷ ops) l e =
    (ops, perform-writer kind op (record s { writer = unwinding ops }), omega (arith, l))

read_next_writer : (kind : Kind) (s : Socket) (r : Phase) → (read_next kind s r).writer ≡ s.writer
unfolding read_next
read_next_writer kind s looping = refl
read_next_writer kind s (unwinding []) = refl
read_next_writer kind s (unwinding (op ∷ ops)) =
    perform-writer kind op (record s { reader = unwinding ops })

write_next_reader : (kind : Kind) (s : Socket) (w : Phase) → (write_next kind s w).reader ≡ s.reader
unfolding write_next
write_next_reader kind s looping = refl
write_next_reader kind s (unwinding []) = refl
write_next_reader kind s (unwinding (op ∷ ops)) =
    perform-reader kind op (record s { writer = unwinding ops })

empty : (ops : List Op) → length ops ≤ 0 → ops ≡ []
empty [] l = refl
empty (op ∷ ops) l = absurd (omega (arith, l))

pub read_ons :
    (kind : Kind) (n : ℕ) (s : Socket) (w : Phase)
    → IsOver n s.reader
    → s.writer ≡ w
    → ((steps kind s (again n read_on)).reader ≡ unwinding [])
      × ((steps kind s (again n read_on)).writer ≡ w)
unfolding steps step
read_ons kind zero s w (ops, e, l) f = (e ∙ ap unwinding (empty ops l), f)
read_ons kind (suc n) s w (ops, e, l) f =
    read_ons kind n (step kind s read_on) w
      (subst (λ r. IsOver n (read_next kind s r).reader) (sym e) (read_next_lem kind n s ops l e))
      (read_next_writer kind s s.reader ∙ f)

pub write_ons :
    (kind : Kind) (n : ℕ) (s : Socket) (r : Phase)
    → IsOver n s.writer
    → s.reader ≡ r
    → ((steps kind s (again n write_on)).writer ≡ unwinding [])
      × ((steps kind s (again n write_on)).reader ≡ r)
unfolding steps step
write_ons kind zero s r (ops, e, l) f = (e ∙ ap unwinding (empty ops l), f)
write_ons kind (suc n) s r (ops, e, l) f =
    write_ons kind n (step kind s write_on) r
      (subst (λ w. IsOver n (write_next kind s w).writer) (sym e) (write_next_lem kind n s ops l e))
      (write_next_reader kind s s.writer ∙ f)

write_over_reader : (kind : Kind) (s : Socket) (w : Phase) → (write_over kind s w).reader ≡ s.reader
unfolding write_over
write_over_reader kind s looping = refl
write_over_reader kind s (unwinding ops) = refl

read_over_writer : (kind : Kind) (s : Socket) (r : Phase) → (read_over kind s r).writer ≡ s.writer
unfolding read_over
read_over_writer kind s looping = refl
read_over_writer kind s (unwinding ops) = refl

pub write_end_reader : (kind : Kind) (s : Socket) → (step kind s write_end).reader ≡ s.reader
unfolding step
write_end_reader kind s =
    if_both (λ (t : Socket). t.reader ≡ s.reader) s.close_ch (write_over_reader kind s s.writer)
      refl

pub read_end_writer : (kind : Kind) (s : Socket) → (step kind s read_end).writer ≡ s.writer
unfolding step
read_end_writer kind s =
    if_both (λ (t : Socket). t.writer ≡ s.writer) (read_fails kind s)
      (read_over_writer kind s s.reader) refl
