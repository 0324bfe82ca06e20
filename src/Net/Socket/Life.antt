-- ===== src/Net/Socket/Life.antt =====
-- Close of a socket (tcp_socket.go, kcp_socket.go, websocket.go, udp_socket.go) to its end.
use gotu.Base.{ℕ, ◌+◌, ◌≡◌, refl, ap, ◌∙◌, subst, Bool, true, false, not, ◌||◌, List, [], arith}
use gotu.Net.Socket.{
  Kind, tcp, kcp, websocket, udp, Op, done, shut, disconnect, release, close_conn, Phase, unwinding,
  Socket, new_socket, Action, read_end, write_end, read_on, write_on, read_fails, step, steps,
}
use gotu.Net.Socket.Even.{disconnects_of, releases_of, one, todo}
use gotu.Net.Socket.Steps.{IsBalanced}
use gotu.Net.Socket.Balance.{step-IsBalanced, steps-IsBalanced_from, steps-IsBalanced}
use gotu.Net.Socket.Tidy.{IsKept, step-IsTidy, steps-IsTidy, run-IsTidy}
use gotu.Net.Socket.Ends.{
  again, read_end-IsOver, write_end-IsOver, read_ons, write_ons, write_end_reader, read_end_writer,
}

-- Both loops are at their end, and everything has been done once.
pub record IsGone (kind : Kind) (s : Socket) : Type 0 where
  pub waits : s.wg ≡ 0
  pub disconnected : s.disconnects ≡ disconnects_of kind
  pub released : s.releases ≡ releases_of kind
  pub closed : s.conn ≡ false
  pub intact : s.crashed ≡ false

nothing : (b : Bool) (n : ℕ) → one (not b) + n ≡ 1 → n ≡ 0 → b ≡ false
nothing true n h z = absurd (omega (arith, h, z))
nothing false n h z = refl

something : (b : Bool) (n : ℕ) → one b + n ≡ 1 → n ≡ 0 → b ≡ true
something true n h z = refl
something false n h z = absurd (omega (arith, h, z))

all_done : (m n t : ℕ) → m + n ≡ t → n ≡ 0 → m ≡ t
all_done m n t h z = omega (arith, h, z)

-- The loops at their ends have nothing to do.
idle :
    (kind : Kind) (r w : Phase)
    → r ≡ unwinding []
    → w ≡ unwinding []
    → (a : Op) → todo kind r w a ≡ 0
idle kind r w e f a =
    ap (λ x. todo kind x w a) e ∙ (ap (λ y. todo kind (unwinding []) y a) f ∙ omega arith)

gone :
    (kind : Kind) (s : Socket)
    → IsBalanced kind s
    → s.reader ≡ unwinding []
    → s.writer ≡ unwinding []
    → IsGone kind s
gone kind s v e f = record {
  waits = v.waits ∙ idle kind s.reader s.writer e f done;
  disconnected =
      all_done s.disconnects _ (disconnects_of kind) v.disconnected
        (idle kind s.reader s.writer e f disconnect);
  released =
      all_done s.releases _ (releases_of kind) v.released (idle kind s.reader s.writer e f release);
  closed = nothing s.conn _ v.connected (idle kind s.reader s.writer e f close_conn);
  intact = v.intact;
}

-- With the read loop at its end, TCP's closeCh is closed; with the write loop at its end, the
-- connection is.
closed_by_reader :
    (s : Socket) → IsBalanced tcp s → IsKept tcp s → s.reader ≡ unwinding [] → s.close_ch ≡ true
closed_by_reader s v (lr, lw, ts, tc) e =
    something s.close_ch _ v.shut_once (ap (λ r. todo tcp r s.writer shut) e ∙ omega (arith, ts))

closed_by_writer :
    (kind : Kind) (s : Socket)
    → IsBalanced kind s
    → IsKept kind s
    → s.writer ≡ unwinding []
    → s.conn ≡ false
closed_by_writer kind s v (lr, lw, ts, tc) e =
    nothing s.conn _ v.connected (ap (λ w. todo kind s.reader w close_conn) e ∙ omega (arith, tc))

-- The read loop ends and then the write loop, or the other way round.
abbrev pub reader_first : Kind → Socket → Socket
reader_first kind s =
    steps kind (step kind (steps kind (step kind s read_end) (again 4 read_on)) write_end)
      (again 3 write_on)

abbrev pub writer_first : Kind → Socket → Socket
writer_first kind s =
    steps kind (step kind (steps kind (step kind s write_end) (again 3 write_on)) read_end)
      (again 4 read_on)

-- What Close brings about.
abbrev pub drive : Kind → Socket → Socket
drive tcp s = reader_first tcp s
drive kind s = writer_first kind s

fails_closed : (kind : Kind) (s : Socket) → s.conn ≡ false → read_fails kind s ≡ true
fails_closed tcp s h = ground (arith, h)
fails_closed kcp s h = ap not h
fails_closed websocket s h = ap not h
fails_closed udp s h = ap not h

reader_first-IsGone :
    (s : Socket)
    → IsBalanced tcp s
    → IsKept tcp s
    → s.called ≡ true
    → IsGone tcp (reader_first tcp s)
reader_first-IsGone s v t h =
    let s1 = step tcp s read_end in
    let s2 = steps tcp s1 (again 4 read_on) in
    let s3 = step tcp s2 write_end in
    let t2 = steps-IsTidy tcp s1 (again 4 read_on) (step-IsTidy tcp s read_end t) in
    let v2 = steps-IsBalanced_from tcp s1 (again 4 read_on) (step-IsBalanced tcp s read_end v) in
    let (r2, w2) =
      read_ons tcp 4 s1 s1.writer (read_end-IsOver tcp s t (ap (λ b. b || not s.conn) h)) refl in
    let (w4, r4) =
      write_ons tcp 3 s3 (unwinding []) (write_end-IsOver tcp s2 t2 (closed_by_reader s2 v2 t2 r2))
        (write_end_reader tcp s2 ∙ r2) in
    gone tcp (reader_first tcp s)
      (steps-IsBalanced_from tcp s3 (again 3 write_on) (step-IsBalanced tcp s2 write_end v2)) r4 w4

writer_first-IsGone :
    (kind : Kind) (s : Socket)
    → IsBalanced kind s
    → IsKept kind s
    → s.close_ch ≡ true
    → IsGone kind (writer_first kind s)
writer_first-IsGone kind s v t h =
    let s1 = step kind s write_end in
    let s2 = steps kind s1 (again 3 write_on) in
    let s3 = step kind s2 read_end in
    let t2 = steps-IsTidy kind s1 (again 3 write_on) (step-IsTidy kind s write_end t) in
    let v2 =
      steps-IsBalanced_from kind s1 (again 3 write_on) (step-IsBalanced kind s write_end v) in
    let (w2, r2) = write_ons kind 3 s1 s1.reader (write_end-IsOver kind s t h) refl in
    let (r4, w4) =
      read_ons kind 4 s3 (unwinding [])
        (read_end-IsOver kind s2 t2 (fails_closed kind s2 (closed_by_writer kind s2 v2 t2 w2)))
        (read_end_writer kind s2 ∙ w2) in
    gone kind (writer_first kind s)
      (steps-IsBalanced_from kind s3 (again 4 read_on) (step-IsBalanced kind s2 read_end v2)) r4 w4

shut_by_close :
    (called close_ch : Bool) → called ≡ true → (not called || close_ch) ≡ true → close_ch ≡ true
shut_by_close called close_ch h k = subst (λ b. (not b || close_ch) ≡ true) h k

drive-IsGone_from :
    (kind : Kind) (s : Socket)
    → IsBalanced kind s
    → IsKept kind s
    → s.called ≡ true
    → IsGone kind (drive kind s)
drive-IsGone_from tcp s v t h = reader_first-IsGone s v t h
drive-IsGone_from kcp s v t h =
    writer_first-IsGone kcp s v t (shut_by_close s.called s.close_ch h v.shut_once)
drive-IsGone_from websocket s v t h =
    writer_first-IsGone websocket s v t (shut_by_close s.called s.close_ch h v.shut_once)
drive-IsGone_from udp s v t h =
    writer_first-IsGone udp s v t (shut_by_close s.called s.close_ch h v.shut_once)

-- Wherever Close finds a socket, and whatever its loops do besides, what it brings about ends both
-- loops: their wait group is empty, onDisconnect and releaseFn have been called just once, as
-- far as the kind of socket has them, and the connection is closed, without a panic.
pub drive-IsGone :
    (kind : Kind) (actions : List Action)
    → (steps kind new_socket actions).called ≡ true
    → IsGone kind (drive kind (steps kind new_socket actions))
drive-IsGone kind actions h =
    drive-IsGone_from kind (steps kind new_socket actions) (steps-IsBalanced kind actions)
      (run-IsTidy kind actions) h
