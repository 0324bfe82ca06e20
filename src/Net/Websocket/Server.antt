-- ===== src/Net/Websocket/Server.antt =====
-- pkg/xnet/websocket_server.go: the requests that the http server serves side by side, the sockets that
-- they make, and Close, in any order. A request and its socket are one number. `net/http` begins a
-- request while it serves, and its Close takes no connection from a websocket; the third-party
-- Upgrade succeeds or fails as the actions say. `mu` is held across steps by Close alone: addSocket
-- and delSocket are one step each, which waits for `mu`.
pub mod Tracked
pub mod Sweep
pub mod Swept
pub mod Close
pub mod Late
mod Examples
use gotu.Base.{ℕ, suc, Bool, true, false, List, [], ◌∷◌, ◌==◌, if◌then◌else◌}
use gotu.Net.Server.{has, without}

-- Where the request's handler stands: not begun; in Upgrade; at the lock of addSocket; in
-- WaitUntilClose; at the lock of delSocket; past its end.
pub data RequestAt : Type 0 where
  idle upgrading adding serving deleting done : RequestAt

-- Where Close stands: not called; with the lock and the sockets still to close; before
-- `httpSrv.Close()`; before `wg.Wait()`, for which `start` leaves nothing; past its end.
pub data ClosingAt : Type 0 where
  uncalled : ClosingAt
  sweeping : List ℕ → ClosingAt
  stopping waiting returned : ClosingAt

-- `live` tells the sockets whose loops run.
pub record WsServer : Type 0 where
  pub sockets : List ℕ
  pub mu : Bool
  pub http : Bool
  pub next : ℕ
  pub at : ℕ → RequestAt
  pub live : ℕ → Bool
  pub closer : ClosingAt

abbrev pub new_ws_server : WsServer
new_ws_server = record {
  sockets = [];
  mu = false;
  http = true;
  next = 0;
  at = λ i. idle;
  live = λ i. false;
  closer = uncalled;
}

-- A request comes in; Upgrade fails, or gives the connection of which NewWebsocket makes a socket;
-- addSocket; the socket's loops end by themselves; WaitUntilClose returns; delSocket; ListenAndServe
-- fails; the steps of Close, one after another.
pub data WsAction : Type 0 where
  request : WsAction
  refused upgraded add ends leaves delete : ℕ → WsAction
  listen_failed : WsAction
  close : WsAction

abbrev pub set {ℓ} : {A : Type ℓ} → ℕ → A → (ℕ → A) → ℕ → A
set i x f j = if j == i then x else f j

abbrev pub goes : ℕ → RequestAt → WsServer → WsServer
goes i at s = record s { at = set i at s.at }

abbrev pub is_upgrading : RequestAt → Bool
is_upgrading upgrading = true
is_upgrading _ = false

abbrev pub is_adding : RequestAt → Bool
is_adding adding = true
is_adding _ = false

abbrev pub is_serving : RequestAt → Bool
is_serving serving = true
is_serving _ = false

abbrev pub is_deleting : RequestAt → Bool
is_deleting deleting = true
is_deleting _ = false

abbrev pub add_socket : ℕ → WsServer → WsServer
add_socket i s = if s.mu then s else record (goes i serving s) { sockets = i ∷ without i s.sockets }

abbrev pub del_socket : ℕ → WsServer → WsServer
del_socket i s = if s.mu then s else record (goes i done s) { sockets = without i s.sockets }

-- The socket's loops are over: its Close waits for them.
abbrev pub over : ℕ → WsServer → WsServer
over i s = record s { live = set i false s.live }

on_closing : ClosingAt → WsServer → WsServer
on_closing uncalled s = if s.mu then s else record s { mu = true; closer = sweeping s.sockets }
on_closing (sweeping (i ∷ is)) s = record (over i s) { closer = sweeping is }
on_closing (sweeping []) s = record s { mu = false; closer = stopping }
on_closing stopping s = record s { http = false; closer = waiting }
on_closing waiting s = record s { closer = returned }
on_closing returned s = s

unfoldable pub ws_step : WsServer → WsAction → WsServer
unfolding on_closing
ws_step s request = if s.http then record (goes s.next upgrading s) { next = suc s.next } else s
ws_step s (ends i) = over i s
ws_step s listen_failed = record s { http = false }
ws_step s close = on_closing s.closer s
ws_step s (refused i) = if is_upgrading (s.at i) then goes i done s else s
ws_step s (upgraded i) =
    if is_upgrading (s.at i) then record (goes i adding s) { live = set i true s.live } else s
ws_step s (add i) = if is_adding (s.at i) then add_socket i s else s
ws_step s (leaves i) =
    if is_serving (s.at i) then (if s.live i then s else goes i deleting s) else s
ws_step s (delete i) = if is_deleting (s.at i) then del_socket i s else s

unfoldable pub ws_steps : WsServer → List WsAction → WsServer
unfolding ws_step
ws_steps s [] = s
ws_steps s (a ∷ actions) = ws_steps (ws_step s a) actions
