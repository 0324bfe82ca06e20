-- ===== src/Net/Socket/Even.antt =====
-- One deferred operation of a socket (tcp_socket.go, kcp_socket.go, websocket.go, udp_socket.go) after another.
use gotu.Base.{
  ℕ, suc, ◌+◌, ◌≡◌, refl, sym, ◌∙◌, subst, Bool, true, false, not, ◌||◌, List, [], ◌∷◌,
  if◌then◌else◌, arith,
}
use gotu.Net.Socket.{
  Kind, tcp, kcp, websocket, udp, Op, done, shut, disconnect, release, close_conn, Phase, looping,
  unwinding, Socket, read_defers, write_defers, shut_in, perform,
}

-- What a loop has still to do of what it deferred.
abbrev pub left_of : List Op → Phase → List Op
left_of defers looping = defers
left_of defers (unwinding ops) = ops

abbrev pub one : Bool → ℕ
one true = 1
one false = 0

abbrev pub is : Op → Op → Bool
is done done = true
is shut shut = true
is disconnect disconnect = true
is release release = true
is close_conn close_conn = true
is a b = false

abbrev pub times : Op → List Op → ℕ
times a [] = 0
times a (b ∷ ops) = one (is a b) + times a ops

-- How often loops at these places have still to do each operation.
abbrev pub todo : Kind → Phase → Phase → Op → ℕ
todo kind r w a = times a (left_of (read_defers kind) r) + times a (left_of (write_defers kind) w)

-- TCP's read loop alone closes closeCh, and once; else Close does so, or the read loop.
abbrev pub IsShutOnce : Kind → Bool → Bool → ℕ → Type 0
IsShutOnce tcp called close_ch n = one close_ch + n ≡ 1
IsShutOnce kind called close_ch n = (not called || close_ch) ≡ true

-- How often the callbacks are called in the life of a socket: a UDP socket has no onDisconnect of its
-- own, and only TCP and KCP sockets are released.
abbrev pub disconnects_of : Kind → ℕ
disconnects_of tcp = 1
disconnects_of kcp = 1
disconnects_of websocket = 1
disconnects_of udp = 0

abbrev pub releases_of : Kind → ℕ
releases_of tcp = 1
releases_of kcp = 1
releases_of websocket = 0
releases_of udp = 0

-- What has been done and what is left, `n`, are together what is to be done once.
pub record IsEven (kind : Kind) (s : Socket) (n : Op → ℕ) : Type 0 where
  pub waits : s.wg ≡ n done
  pub disconnected : s.disconnects + n disconnect ≡ disconnects_of kind
  pub released : s.releases + n release ≡ releases_of kind
  pub connected : one (not s.conn) + n close_conn ≡ 1
  pub shut_once : IsShutOnce kind s.called s.close_ch (n shut)
  pub intact : s.crashed ≡ false

same_left : (m n : ℕ) → m ≡ 0 + n → m ≡ n
same_left m n h = omega (arith, h)

-- What was not the next to be done is done as often as before.
kept : (k m n t : ℕ) → m ≡ 0 + n → k + m ≡ t → k + n ≡ t
kept k m n t e h = omega (arith, e, h)

kept_shut :
    (kind : Kind) (called close_ch : Bool) (m n : ℕ)
    → m ≡ 0 + n
    → IsShutOnce kind called close_ch m
    → IsShutOnce kind called close_ch n
kept_shut tcp called close_ch m n e h = kept (one close_ch) m n 1 e h
kept_shut kcp called close_ch m n e h = h
kept_shut websocket called close_ch m n e h = h
kept_shut udp called close_ch m n e h = h

next_done : (k m n t : ℕ) → m ≡ 1 + n → k + m ≡ t → suc k + n ≡ t
next_done k m n t e h = omega (arith, e, h)

-- With one still to come, it has not been done.
open_before : (b : Bool) (m n : ℕ) → m ≡ 1 + n → one b + m ≡ 1 → (b ≡ false) × (1 + n ≡ 1)
open_before true m n e h = absurd (omega (arith, e, h))
open_before false m n e h = (refl, omega (arith, e, h))

once-IsEven :
    (kind : Kind) (s : Socket) (n n' : Op → ℕ)
    → ((a : Op) → n a ≡ one (is a shut) + n' a)
    → IsShutOnce kind s.called true (n' shut)
    → IsEven kind s n
    → IsEven kind (record s { close_ch = true }) n'
once-IsEven kind s n n' e once v = record {
  waits = v.waits ∙ same_left (n done) (n' done) (e done);
  disconnected =
      kept s.disconnects (n disconnect) (n' disconnect) (disconnects_of kind) (e disconnect)
        v.disconnected;
  released = kept s.releases (n release) (n' release) (releases_of kind) (e release) v.released;
  connected = kept (one (not s.conn)) (n close_conn) (n' close_conn) 1 (e close_conn) v.connected;
  shut_once = once;
  intact = v.intact;
}

or_true : (b : Bool) → (b || true) ≡ true
or_true true = refl
or_true false = refl

shut_in-IsEven :
    (kind : Kind) (s : Socket) (n n' : Op → ℕ)
    → ((a : Op) → n a ≡ one (is a shut) + n' a)
    → IsEven kind s n
    → IsEven kind (shut_in kind s) n'
unfolding shut_in
shut_in-IsEven tcp s n n' e v =
    let (fresh, last) = open_before s.close_ch (n shut) (n' shut) (e shut) v.shut_once in
    subst
      (λ b. IsEven tcp (if b then record s { crashed = true } else record s { close_ch = true }) n')
      (sym fresh) (once-IsEven tcp s n n' e last v)
shut_in-IsEven kcp s n n' e v = once-IsEven kcp s n n' e (or_true (not s.called)) v
shut_in-IsEven websocket s n n' e v = once-IsEven websocket s n n' e (or_true (not s.called)) v
shut_in-IsEven udp s n n' e v = once-IsEven udp s n n' e (or_true (not s.called)) v

pub perform-IsEven :
    (kind : Kind) (op : Op) (s : Socket) (n n' : Op → ℕ)
    → ((a : Op) → n a ≡ one (is a op) + n' a)
    → IsEven kind s n
    → IsEven kind (perform kind op s) n'
unfolding perform
perform-IsEven kind shut s n n' e v = shut_in-IsEven kind s n n' e v
perform-IsEven kind done s n n' e v = record {
  waits = omega (arith, v.waits, e done);
  disconnected =
      kept s.disconnects (n disconnect) (n' disconnect) (disconnects_of kind) (e disconnect)
        v.disconnected;
  released = kept s.releases (n release) (n' release) (releases_of kind) (e release) v.released;
  connected = kept (one (not s.conn)) (n close_conn) (n' close_conn) 1 (e close_conn) v.connected;
  shut_once = kept_shut kind s.called s.close_ch (n shut) (n' shut) (e shut) v.shut_once;
  intact = v.intact;
}
perform-IsEven kind disconnect s n n' e v = record {
  waits = v.waits ∙ same_left (n done) (n' done) (e done);
  disconnected =
      next_done s.disconnects (n disconnect) (n' disconnect) (disconnects_of kind) (e disconnect)
        v.disconnected;
  released = kept s.releases (n release) (n' release) (releases_of kind) (e release) v.released;
  connected = kept (one (not s.conn)) (n close_conn) (n' close_conn) 1 (e close_conn) v.connected;
  shut_once = kept_shut kind s.called s.close_ch (n shut) (n' shut) (e shut) v.shut_once;
  intact = v.intact;
}
perform-IsEven kind release s n n' e v = record {
  waits = v.waits ∙ same_left (n done) (n' done) (e done);
  disconnected =
      kept s.disconnects (n disconnect) (n' disconnect) (disconnects_of kind) (e disconnect)
        v.disconnected;
  released =
      next_done s.releases (n release) (n' release) (releases_of kind) (e release) v.released;
  connected = kept (one (not s.conn)) (n close_conn) (n' close_conn) 1 (e close_conn) v.connected;
  shut_once = kept_shut kind s.called s.close_ch (n shut) (n' shut) (e shut) v.shut_once;
  intact = v.intact;
}
perform-IsEven kind close_conn s n n' e v = record {
  waits = v.waits ∙ same_left (n done) (n' done) (e done);
  disconnected =
      kept s.disconnects (n disconnect) (n' disconnect) (disconnects_of kind) (e disconnect)
        v.disconnected;
  released = kept s.releases (n release) (n' release) (releases_of kind) (e release) v.released;
  connected =
      (open_before (not s.conn) (n close_conn) (n' close_conn) (e close_conn) v.connected).1;
  shut_once = kept_shut kind s.called s.close_ch (n shut) (n' shut) (e shut) v.shut_once;
  intact = v.intact;
}
