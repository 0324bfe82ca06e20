-- ===== src/Net/Socket/Tidy.antt =====
-- What the deferred functions of a socket (tcp_socket.go, kcp_socket.go, websocket.go, udp_socket.go) leave to do.
use gotu.Base.{ℕ, ◌+◌, ◌≤◌, ◌≡◌, refl, sym, subst, List, [], ◌∷◌, arith, length, if_both}
use gotu.Net.Socket.{
  Kind, tcp, kcp, websocket, udp, Op, shut, close_conn, Phase, looping, unwinding, Socket,
  new_socket, read_defers, write_defers, Action, read_break, write_break, read_end, write_end,
  read_on, write_on, close, shut_in, perform, read_over, write_over, read_next, write_next,
  read_fails, begin_close, step, steps,
}
use gotu.Net.Socket.Even.{left_of, one, is, times}
use gotu.Net.Socket.Steps.{perform-reader, perform-writer}

-- What loops at these places have deferred and not done is short, and each loop leaves to the other
-- what the other is there for.
abbrev pub IsTidy : Kind → Phase → Phase → Type 0
IsTidy kind r w =
    (length (left_of (read_defers kind) r) ≤ 4)
    × (length (left_of (write_defers kind) w) ≤ 3)
    × (times shut (left_of (write_defers kind) w) ≡ 0)
    × (times close_conn (left_of (read_defers kind) r) ≡ 0)

read_over-IsTidy :
    (kind : Kind) (s : Socket) (r : Phase)
    → s.reader ≡ r
    → IsTidy kind r s.writer
    → IsTidy kind (read_over kind s r).reader (read_over kind s r).writer
unfolding read_over
read_over-IsTidy kind s looping e t = t
read_over-IsTidy kind s (unwinding ops) e t = subst (λ x. IsTidy kind x s.writer) (sym e) t

write_over-IsTidy :
    (kind : Kind) (s : Socket) (w : Phase)
    → s.writer ≡ w
    → IsTidy kind s.reader w
    → IsTidy kind (write_over kind s w).reader (write_over kind s w).writer
unfolding write_over
write_over-IsTidy kind s looping e t = t
write_over-IsTidy kind s (unwinding ops) e t = subst (λ x. IsTidy kind s.reader x) (sym e) t

perform-IsTidy :
    (kind : Kind) (op : Op) (s : Socket)
    → IsTidy kind s.reader s.writer
    → IsTidy kind (perform kind op s).reader (perform kind op s).writer
perform-IsTidy kind op s t =
    subst (λ x. IsTidy kind x (perform kind op s).writer) (sym (perform-reader kind op s))
      (subst (λ x. IsTidy kind s.reader x) (sym (perform-writer kind op s)) t)

none_left : (b n : ℕ) → b + n ≡ 0 → n ≡ 0
none_left b n h = omega (arith, h)

read_next-IsTidy :
    (kind : Kind) (s : Socket) (r : Phase)
    → s.reader ≡ r
    → IsTidy kind r s.writer
    → IsTidy kind (read_next kind s r).reader (read_next kind s r).writer
unfolding read_next
read_next-IsTidy kind s looping e t = subst (λ x. IsTidy kind x s.writer) (sym e) t
read_next-IsTidy kind s (unwinding []) e t = subst (λ x. IsTidy kind x s.writer) (sym e) t
read_next-IsTidy kind s (unwinding (op ∷ ops)) e (lr, lw, ts, tc) =
    perform-IsTidy kind op (record s { reader = unwinding ops })
      (omega (arith, lr), lw, ts, none_left (one (is close_conn op)) (times close_conn ops) tc)

write_next-IsTidy :
    (kind : Kind) (s : Socket) (w : Phase)
    → s.writer ≡ w
    → IsTidy kind s.reader w
    → IsTidy kind (write_next kind s w).reader (write_next kind s w).writer
unfolding write_next
write_next-IsTidy kind s looping e t = subst (λ x. IsTidy kind s.reader x) (sym e) t
write_next-IsTidy kind s (unwinding []) e t = subst (λ x. IsTidy kind s.reader x) (sym e) t
write_next-IsTidy kind s (unwinding (op ∷ ops)) e (lr, lw, ts, tc) =
    perform-IsTidy kind op (record s { writer = unwinding ops })
      (lr, omega (arith, lw), none_left (one (is shut op)) (times shut ops) ts, tc)

begin_close-IsTidy :
    (kind : Kind) (s : Socket)
    → IsTidy kind s.reader s.writer
    → IsTidy kind (begin_close kind s).reader (begin_close kind s).writer
unfolding begin_close shut_in
begin_close-IsTidy tcp s t = t
begin_close-IsTidy kcp s t = t
begin_close-IsTidy websocket s t = t
begin_close-IsTidy udp s t = t

abbrev pub IsKept : Kind → Socket → Type 0
IsKept kind s = IsTidy kind s.reader s.writer

pub step-IsTidy :
    (kind : Kind) (s : Socket) (a : Action) → IsKept kind s → IsKept kind (step kind s a)
unfolding step
step-IsTidy kind s read_break t = read_over-IsTidy kind s s.reader refl t
step-IsTidy kind s write_break t = write_over-IsTidy kind s s.writer refl t
step-IsTidy kind s read_end t =
    if_both (IsKept kind) (read_fails kind s) (read_over-IsTidy kind s s.reader refl t) t
step-IsTidy kind s write_end t =
    if_both (IsKept kind) s.close_ch (write_over-IsTidy kind s s.writer refl t) t
step-IsTidy kind s read_on t = read_next-IsTidy kind s s.reader refl t
step-IsTidy kind s write_on t = write_next-IsTidy kind s s.writer refl t
step-IsTidy kind s close t = begin_close-IsTidy kind s t

pub steps-IsTidy :
    (kind : Kind) (s : Socket) (actions : List Action)
    → IsKept kind s
    → IsKept kind (steps kind s actions)
unfolding steps
steps-IsTidy kind s [] t = t
steps-IsTidy kind s (a ∷ actions) t =
    steps-IsTidy kind (step kind s a) actions (step-IsTidy kind s a t)

new_socket-IsTidy : (kind : Kind) → IsKept kind new_socket
new_socket-IsTidy tcp = (omega arith, omega arith, refl, refl)
new_socket-IsTidy kcp = (omega arith, omega arith, refl, refl)
new_socket-IsTidy websocket = (omega arith, omega arith, refl, refl)
new_socket-IsTidy udp = (omega arith, omega arith, refl, refl)

-- Along every run of a new socket.
pub run-IsTidy : (kind : Kind) (actions : List Action) → IsKept kind (steps kind new_socket actions)
run-IsTidy kind actions = steps-IsTidy kind new_socket actions (new_socket-IsTidy kind)
