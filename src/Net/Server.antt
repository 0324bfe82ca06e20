-- ===== src/Net/Server.antt =====
-- pkg/xnet/tcp_server.go and kcp_server.go: the accept loop, the sockets that end and are released,
-- and Close, in any order. A socket is a number, given as it is made; `live` are the sockets whose
-- loops run, `ending` those whose loops are over and which wait to be taken from the map. The mutex
-- `mu` is held across steps by Close alone: addSocket and delSocket are one step each, which waits
-- for `mu`. In both kinds of socket the loops leave the wait group before they release the socket, so
-- that `sock.Close` needs no lock and is one step too.
pub mod Sweep
pub mod Moves
pub mod Invariant
pub mod Progress
pub mod Deadlock
mod Examples
use gotu.Base.{ℕ, suc, ◌+◌, Bool, true, false, not, ◌||◌, List, [], ◌∷◌, ◌==◌, if◌then◌else◌}

pub data Kind : Type 0 where
  tcp kcp : Kind

-- Where `accept` stands: in Accept; past it, with a connection or an error; in the making of a socket,
-- which for KCP waits for the handshake and may fail; at the lock of addSocket; past its end.
pub data AcceptAt : Type 0 where
  accepting got_conn got_error : AcceptAt
  making adding : ℕ → AcceptAt
  finished : AcceptAt

-- Where `Close` stands: not called; with the lock and the sockets still to close; before
-- `close(closeCh)`; before `listener.Close()`; at `wg.Wait()`; past its end.
pub data CloseAt : Type 0 where
  uncalled : CloseAt
  closing : List ℕ → CloseAt
  shutting stopping waiting returned : CloseAt

pub record Server : Type 0 where
  pub sockets : List ℕ
  pub live : List ℕ
  pub ending : List ℕ
  pub next : ℕ
  pub mu : Bool
  pub close_ch : Bool
  pub accept : AcceptAt
  pub closer : CloseAt

abbrev pub new_server : Server
new_server = record {
  sockets = [];
  live = [];
  ending = [];
  next = 0;
  mu = false;
  close_ch = false;
  accept = accepting;
  closer = uncalled;
}

abbrev pub has : ℕ → List ℕ → Bool
has i [] = false
has i (j ∷ js) = (j == i) || has i js

abbrev pub without : ℕ → List ℕ → List ℕ
without i [] = []
without i (j ∷ js) = if j == i then without i js else j ∷ without i js

-- Accept returns; the select on closeCh behind it; the socket is made or (KCP) is not; addSocket; a
-- socket's loops end by themselves; its release; the steps of Close, one after another.
pub data Action : Type 0 where
  accepts refuses check made unmade add : Action
  ends release : ℕ → Action
  close : Action

-- The socket `i` is over, if it was live.
abbrev pub over : ℕ → Server → Server
over i s = if has i s.live then record s { live = without i s.live; ending = i ∷ s.ending } else s

pub on_accept : Server → AcceptAt → Action → Server
on_accept s accepting accepts = record s { accept = got_conn }
on_accept s accepting refuses = record s { accept = got_error }
on_accept s got_conn check =
    if s.close_ch
    then record s { accept = finished }
    else record s { accept = making s.next; live = s.next ∷ s.live; next = suc s.next }
on_accept s got_error check =
    if s.close_ch then record s { accept = finished } else record s { accept = accepting }
on_accept s (making i) made = record s { accept = adding i }
on_accept s (adding i) add =
    if s.mu then s else record s { accept = accepting; sockets = i ∷ without i s.sockets }
on_accept s at action = s

-- `newKCPSocket` fails after the wait for the handshake, and closes its socket; `newTCPSocket` does not.
pub on_unmade : Kind → Server → AcceptAt → Server
on_unmade kcp s (making i) = over i (record s { accept = accepting })
on_unmade kind s at = s

-- The lock with which the body of Close begins covers the loop over the sockets in tcp_server.go, and
-- all of it in kcp_server.go.
abbrev pub keeps : Kind → Bool
keeps tcp = false
keeps kcp = true

pub on_close : Kind → Server → CloseAt → Server
on_close kind s uncalled = if s.mu then s else record s { mu = true; closer = closing s.sockets }
on_close kind s (closing []) = record s { mu = keeps kind; closer = shutting }
on_close kind s (closing (i ∷ is)) = over i (record s { closer = closing is })
on_close kind s shutting = record s { close_ch = true; closer = stopping }
on_close kind s stopping = record s { closer = waiting }
on_close kind s waiting = elim s.accept [
  | finished ↦ record s { mu = false; closer = returned }
  | _ ↦ s
]
on_close kind s returned = s

unfoldable pub step : Kind → Server → Action → Server
unfolding on_accept on_unmade on_close
step kind s unmade = on_unmade kind s s.accept
step kind s (ends i) = over i s
step kind s (release i) =
    if s.mu
    then s
    else if has i s.ending
    then record s { sockets = without i s.sockets; ending = without i s.ending }
    else s
step kind s close = on_close kind s s.closer
step kind s accepts = on_accept s s.accept accepts
step kind s refuses = on_accept s s.accept refuses
step kind s check = on_accept s s.accept check
step kind s made = on_accept s s.accept made
step kind s add = on_accept s s.accept add

unfoldable pub steps : Kind → Server → List Action → Server
unfolding step
steps kind s [] = s
steps kind s (a ∷ actions) = steps kind (step kind s a) actions
