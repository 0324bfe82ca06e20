-- ===== src/Net/Udp/ReadLoop.antt =====
-- pkg/xnet/udp_socket.go: the read loop, which hands each datagram to the callback of its owner.
use gotu.Base.{ℕ, ◌≡◌, refl, Bool, Option, none, some, List, [], ◌∷◌, take, Error}
use gotu.Wire.{Bytes}
use gotu.Net.Handler.{OnHandlerOnce, read_buffer_size}
use gotu.Net.Stream.{Loop, reading, ended, died}
use gotu.Net.Udp.{UdpServer, Event, datagram, udp_on_msg, serve_one, serve}
use Prim.Native.String.{String}

-- What ReadFromUDP answers: a datagram, with what the callback takes besides; an error, none where it is
-- that of a closed connection, which is not logged.
pub data UdpRead (A : Type 0) : Type 0 where
  received : A → Bytes → UdpRead A
  read_failed : Option Error → UdpRead A

-- The buffer has readBufferSize bytes: the rest of a longer datagram is lost.
abbrev pub read_from_udp : Bytes → Bytes
read_from_udp bytes = take read_buffer_size bytes

-- `on_msg` gives the owner's new state, or none for a panic.
unfoldable pub udp_read_loop {ℓ} :
    {A : Type 0} {S : Type ℓ} → (S → A → Bytes → Option S) → S → List (UdpRead A) → Loop S
udp_read_loop on_msg s [] = reading s
udp_read_loop on_msg s (read_failed e ∷ reads) = ended s e
udp_read_loop on_msg s (received a bytes ∷ reads) = elim (on_msg s a (read_from_udp bytes)) [
  | none ↦ died
  | some s' ↦ udp_read_loop on_msg s' reads
]

-- The peer's address, the choice of the session's select and the time.
abbrev pub Arrival : Type 0
Arrival = String × Bool × ℕ

abbrev pub datagrams : List (Arrival × Bytes) → List (UdpRead Arrival)
datagrams [] = []
datagrams ((a, bytes) ∷ ds) = received a bytes ∷ datagrams ds

abbrev pub arrivals : List (Arrival × Bytes) → List Event
arrivals [] = []
arrivals (((id, pick, now), bytes) ∷ ds) = datagram id pick (read_from_udp bytes) now ∷ arrivals ds

abbrev pub loop_of {ℓ} : {S : Type ℓ} → Option S → Loop S
loop_of none = died
loop_of (some s) = reading s

-- The callback that NewUDPServer gives its socket.
abbrev pub svr_on_msg :
    {S : Type 0}
    → (String → S)
    → OnHandlerOnce S
    → UdpServer S
    → Arrival
    → Bytes
    → Option (UdpServer S)
svr_on_msg connect on_msg svr (id, pick, now) bytes =
    udp_on_msg connect on_msg svr id pick bytes now

-- The read loop of a server's socket serves the datagrams one after another, each cut to the size of
-- the buffer.
udp_read_loop-serve :
    {S : Type 0} (connect : String → S) (on_msg : OnHandlerOnce S) (ds : List (Arrival × Bytes))
    (svr : UdpServer S)
    → udp_read_loop (svr_on_msg connect on_msg) svr (datagrams ds)
      ≡ loop_of (serve connect on_msg svr (arrivals ds))
unfolding udp_read_loop serve serve_one
udp_read_loop-serve connect on_msg [] svr = refl
udp_read_loop-serve connect on_msg (((id, pick, now), bytes) ∷ ds) svr =
    after (λ svr'. udp_read_loop-serve connect on_msg ds svr')
      (udp_on_msg connect on_msg svr id pick (read_from_udp bytes) now)
  where
    after :
        ((svr' : UdpServer _)
          → udp_read_loop (svr_on_msg connect on_msg) svr' (datagrams ds)
            ≡ loop_of (serve connect on_msg svr' (arrivals ds)))
        → (o : Option (UdpServer _))
        → elim o [
          | none ↦ died
          | some s' ↦ udp_read_loop (svr_on_msg connect on_msg) s' (datagrams ds)
        ]
          ≡ loop_of (elim o [ none ↦ none | some svr' ↦ serve connect on_msg svr' (arrivals ds) ])
    after ih none = refl
    after ih (some svr') = ih svr'
