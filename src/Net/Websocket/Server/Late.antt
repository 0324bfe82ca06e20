-- ===== src/Net/Websocket/Server/Late.antt =====
-- A socket that Close of websocket_server.go leaves behind.
use gotu.Base.{
  ℕ, suc, ◌+◌, ◌≤◌, ◌≡◌, refl, sym, ap, ◌∙◌, Bool, true, false, List, [], ◌∷◌, ◌==◌, length, All,
  arith, if_both, subst, true_ne_false,
}
use gotu.Net.Server.{has, without}
use gotu.Net.Websocket.Server.{
  RequestAt, upgrading, adding, serving, deleting, done, ClosingAt, uncalled, sweeping, stopping,
  waiting, returned, WsServer, new_ws_server, WsAction, request, refused, upgraded, add, ends,
  leaves, delete, listen_failed, close, set, is_upgrading, is_adding, is_serving, is_deleting,
  on_closing, ws_step, ws_steps,
}
use gotu.Net.Websocket.Server.Tracked.{IsTracked, ws_steps-IsTracked, is_listed}
use gotu.Net.Websocket.Server.Sweep.{closes, left_of, is_called}
use gotu.Net.Websocket.Server.Swept.{begin-IsSwept}
use gotu.Net.Websocket.Server.Close.{ws_close_returns}

-- A step that is not the end of the loops of `i` by themselves.
abbrev pub Spares : ℕ → WsAction → Type 0
Spares i (ends j) = (i == j) ≡ false
Spares i _ = Unit

-- The socket `i` runs, and Close will not come to it.
record IsLeft (i : ℕ) (s : WsServer) : Type 0 where
  runs : s.live i ≡ true
  passed : has i (left_of s.closer) ≡ false
  called : is_called s.closer ≡ true

closing-IsLeft :
    (i : ℕ) (c : ClosingAt) (s : WsServer) → s.closer ≡ c → IsLeft i s → IsLeft i (on_closing c s)
unfolding on_closing
closing-IsLeft i uncalled s e h = absurd (true_ne_false (sym h.called ∙ ap is_called e))
closing-IsLeft i (sweeping []) s e h = record { runs = h.runs; passed = refl; called = refl }
closing-IsLeft i (sweeping (j ∷ js)) s e h = record {
  runs = ground (arith, h.runs, ap (λ c. has i (left_of c)) (sym e) ∙ h.passed);
  passed = ground (arith, ap (λ c. has i (left_of c)) (sym e) ∙ h.passed);
  called = refl;
}
closing-IsLeft i stopping s e h = record { runs = h.runs; passed = refl; called = refl }
closing-IsLeft i waiting s e h = record { runs = h.runs; passed = refl; called = refl }
closing-IsLeft i returned s e h = h

reat :
    (i : ℕ) (s : WsServer) (at : ℕ → RequestAt) (sockets : List ℕ) (next : ℕ) (http : Bool)
    → IsLeft i s
    → IsLeft i (record s { at = at; sockets = sockets; next = next; http = http })
reat i s at sockets next http h = record { runs = h.runs; passed = h.passed; called = h.called }

step-IsLeft :
    (i : ℕ) (s : WsServer) (a : WsAction) → Spares i a → IsLeft i s → IsLeft i (ws_step s a)
unfolding ws_step
step-IsLeft i s request p h =
    if_both (IsLeft i) s.http (reat i s (set s.next upgrading s.at) s.sockets (suc s.next) s.http h)
      h
step-IsLeft i s (refused j) p h =
    if_both (IsLeft i) (is_upgrading (s.at j))
      (reat i s (set j done s.at) s.sockets s.next s.http h) h
step-IsLeft i s (upgraded j) p h =
    if_both (IsLeft i) (is_upgrading (s.at j))
      (record { runs = ground (arith, h.runs); passed = h.passed; called = h.called }) h
step-IsLeft i s (add j) p h =
    if_both (IsLeft i) (is_adding (s.at j))
      (if_both (IsLeft i) s.mu h
        (reat i s (set j serving s.at) (j ∷ without j s.sockets) s.next s.http h))
      h
step-IsLeft i s (leaves j) p h =
    if_both (IsLeft i) (is_serving (s.at j))
      (if_both (IsLeft i) (s.live j) h (reat i s (set j deleting s.at) s.sockets s.next s.http h)) h
step-IsLeft i s (delete j) p h =
    if_both (IsLeft i) (is_deleting (s.at j))
      (if_both (IsLeft i) s.mu h (reat i s (set j done s.at) (without j s.sockets) s.next s.http h))
      h
step-IsLeft i s (ends j) p h = record {
  runs = ground (arith, h.runs, p);
  passed = h.passed;
  called = h.called;
}
step-IsLeft i s listen_failed p h = reat i s s.at s.sockets s.next false h
step-IsLeft i s close p h = closing-IsLeft i s.closer s refl h

steps-IsLeft :
    (actions : List WsAction) (i : ℕ) (s : WsServer)
    → All (Spares i) actions
    → IsLeft i s
    → IsLeft i (ws_steps s actions)
unfolding ws_steps
steps-IsLeft [] i s p h = h
steps-IsLeft (a ∷ actions) i s (p, ps) h =
    steps-IsLeft actions i (ws_step s a) ps (step-IsLeft i s a p h)

-- A request whose websocket is made and not yet in the map as Close takes the lock: Close returns
-- without closing it, and its loops go on until the peer or the program ends them.
pub late_websocket_left :
    (before after : List WsAction) (i : ℕ)
    → (ws_steps new_ws_server before).closer ≡ uncalled
    → (ws_steps new_ws_server before).at i ≡ adding
    → (ws_steps new_ws_server before).live i ≡ true
    → length (ws_steps new_ws_server before).sockets + 3 ≤ closes after
    → All (Spares i) after
    → let t : WsServer = ws_steps (ws_step (ws_steps new_ws_server before) close) after in
      (t.closer ≡ returned) × (t.live i ≡ true)
late_websocket_left before after i e at_add runs enough spared =
    let s : WsServer = ws_steps new_ws_server before in
    let tracked : IsTracked s = ws_steps-IsTracked before in
    let (same, swept) = begin-IsSwept s tracked e in
    let start : IsLeft i (ws_step s close) = subst (IsLeft i) (sym same) (record {
      runs = runs;
      passed = (tracked.tracked i).listed ∙ ap is_listed at_add;
      called = refl;
    }) in
    (
      (ws_close_returns before after e enough).0,
      (steps-IsLeft after i (ws_step s close) spared start).runs,
    )
