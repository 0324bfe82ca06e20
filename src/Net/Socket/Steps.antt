-- ===== src/Net/Socket/Steps.antt =====
-- The steps of a socket's loops and of its Close (tcp_socket.go, kcp_socket.go, websocket.go,
-- udp_socket.go), one by one.
use gotu.Base.{ℕ, ◌+◌, ◌≡◌, refl, sym, subst, [], ◌∷◌, arith, if_both}
use gotu.Net.Socket.{
  Kind, tcp, kcp, websocket, udp, Op, done, shut, disconnect, release, close_conn, Phase, looping,
  unwinding, Socket, read_defers, write_defers, shut_in, perform, read_over, write_over, read_next,
  write_next, begin_close,
}
use gotu.Net.Socket.Even.{left_of, one, is, times, todo, IsEven, perform-IsEven}

-- The laws of a socket that has still to do what its phases say.
abbrev pub IsBalanced : Kind → Socket → Type 0
IsBalanced kind s = IsEven kind s (todo kind s.reader s.writer)

moved :
    (kind : Kind) (s : Socket) (n : Op → ℕ) (r w : Phase)
    → IsEven kind s n
    → IsEven kind (record s { reader = r; writer = w }) n
moved kind s n r w v = record {
  waits = v.waits;
  disconnected = v.disconnected;
  released = v.released;
  connected = v.connected;
  shut_once = v.shut_once;
  intact = v.intact;
}

shut_in-reader : (kind : Kind) (s : Socket) → (shut_in kind s).reader ≡ s.reader
unfolding shut_in
shut_in-reader tcp s = if_both (λ (t : Socket). t.reader ≡ s.reader) s.close_ch refl refl
shut_in-reader kcp s = refl
shut_in-reader websocket s = refl
shut_in-reader udp s = refl

shut_in-writer : (kind : Kind) (s : Socket) → (shut_in kind s).writer ≡ s.writer
unfolding shut_in
shut_in-writer tcp s = if_both (λ (t : Socket). t.writer ≡ s.writer) s.close_ch refl refl
shut_in-writer kcp s = refl
shut_in-writer websocket s = refl
shut_in-writer udp s = refl

pub perform-reader : (kind : Kind) (op : Op) (s : Socket) → (perform kind op s).reader ≡ s.reader
unfolding perform
perform-reader kind done s = refl
perform-reader kind shut s = shut_in-reader kind s
perform-reader kind disconnect s = refl
perform-reader kind release s = refl
perform-reader kind close_conn s = refl

pub perform-writer : (kind : Kind) (op : Op) (s : Socket) → (perform kind op s).writer ≡ s.writer
unfolding perform
perform-writer kind done s = refl
perform-writer kind shut s = shut_in-writer kind s
perform-writer kind disconnect s = refl
perform-writer kind release s = refl
perform-writer kind close_conn s = refl

-- An operation that was still to do, done.
performed-IsBalanced :
    (kind : Kind) (op : Op) (s : Socket) (n : Op → ℕ)
    → ((a : Op) → n a ≡ one (is a op) + todo kind s.reader s.writer a)
    → IsEven kind s n
    → IsBalanced kind (perform kind op s)
performed-IsBalanced kind op s n e v =
    subst (λ r. IsEven kind (perform kind op s) (todo kind r (perform kind op s).writer))
      (sym (perform-reader kind op s))
      (subst (λ w. IsEven kind (perform kind op s) (todo kind s.reader w))
        (sym (perform-writer kind op s))
        (perform-IsEven kind op s n (todo kind s.reader s.writer) e v))

pub read_over-IsBalanced :
    (kind : Kind) (s : Socket) (r : Phase)
    → s.reader ≡ r
    → IsBalanced kind s
    → IsBalanced kind (read_over kind s r)
unfolding read_over
read_over-IsBalanced kind s looping e v =
    moved kind s (todo kind looping s.writer) (unwinding (read_defers kind)) s.writer
      (subst (λ r. IsEven kind s (todo kind r s.writer)) e v)
read_over-IsBalanced kind s (unwinding ops) e v = v

pub write_over-IsBalanced :
    (kind : Kind) (s : Socket) (w : Phase)
    → s.writer ≡ w
    → IsBalanced kind s
    → IsBalanced kind (write_over kind s w)
unfolding write_over
write_over-IsBalanced kind s looping e v =
    moved kind s (todo kind s.reader looping) s.reader (unwinding (write_defers kind))
      (subst (λ w. IsEven kind s (todo kind s.reader w)) e v)
write_over-IsBalanced kind s (unwinding ops) e v = v

next_read : (b m n : ℕ) → (b + m) + n ≡ b + (m + n)
next_read b m n = omega arith

next_write : (b m n : ℕ) → m + (b + n) ≡ b + (m + n)
next_write b m n = omega arith

pub read_next-IsBalanced :
    (kind : Kind) (s : Socket) (r : Phase)
    → s.reader ≡ r
    → IsBalanced kind s
    → IsBalanced kind (read_next kind s r)
unfolding read_next
read_next-IsBalanced kind s looping e v = v
read_next-IsBalanced kind s (unwinding []) e v = v
read_next-IsBalanced kind s (unwinding (op ∷ ops)) e v =
    performed-IsBalanced kind op (record s { reader = unwinding ops })
      (todo kind (unwinding (op ∷ ops)) s.writer)
      (λ a.
        next_read (one (is a op)) (times a ops) (times a (left_of (write_defers kind) s.writer)))
      (moved kind s _ (unwinding ops) s.writer
        (subst (λ r. IsEven kind s (todo kind r s.writer)) e v))

pub write_next-IsBalanced :
    (kind : Kind) (s : Socket) (w : Phase)
    → s.writer ≡ w
    → IsBalanced kind s
    → IsBalanced kind (write_next kind s w)
unfolding write_next
write_next-IsBalanced kind s looping e v = v
write_next-IsBalanced kind s (unwinding []) e v = v
write_next-IsBalanced kind s (unwinding (op ∷ ops)) e v =
    performed-IsBalanced kind op (record s { writer = unwinding ops })
      (todo kind s.reader (unwinding (op ∷ ops)))
      (λ a.
        next_write (one (is a op)) (times a (left_of (read_defers kind) s.reader)) (times a ops))
      (moved kind s _ s.reader (unwinding ops)
        (subst (λ w. IsEven kind s (todo kind s.reader w)) e v))

pub begin_close-IsBalanced :
    (kind : Kind) (s : Socket) → IsBalanced kind s → IsBalanced kind (begin_close kind s)
unfolding begin_close shut_in
begin_close-IsBalanced tcp s v = record {
  waits = v.waits;
  disconnected = v.disconnected;
  released = v.released;
  connected = v.connected;
  shut_once = v.shut_once;
  intact = v.intact;
}
begin_close-IsBalanced kcp s v = record {
  waits = v.waits;
  disconnected = v.disconnected;
  released = v.released;
  connected = v.connected;
  shut_once = refl;
  intact = v.intact;
}
begin_close-IsBalanced websocket s v = record {
  waits = v.waits;
  disconnected = v.disconnected;
  released = v.released;
  connected = v.connected;
  shut_once = refl;
  intact = v.intact;
}
begin_close-IsBalanced udp s v = record {
  waits = v.waits;
  disconnected = v.disconnected;
  released = v.released;
  connected = v.connected;
  shut_once = refl;
  intact = v.intact;
}
