-- ===== src/Net/Websocket/Server/Close.antt =====
-- Close of websocket_server.go, with the requests that move beside it.
use gotu.Base.{
  ℕ, ◌+◌, ◌≤◌, ◌≡◌, sym, ap, ◌∙◌, true, false, List, length, arith, Bool-cases, inl, inr,
  true_ne_false,
}
use gotu.Net.Server.{has}
use gotu.Net.Websocket.Server.{
  uncalled, returned, WsServer, new_ws_server, WsAction, close, ws_step, ws_steps,
}
use gotu.Net.Websocket.Server.Tracked.{IsTracked, ws_step-IsTracked, ws_steps-IsTracked}
use gotu.Net.Websocket.Server.Sweep.{closes, left_of, rank, rank-steps, over_at_last}
use gotu.Net.Websocket.Server.Swept.{IsSwept, ws_steps-IsSwept, begin-IsSwept}

-- Close takes the lock at once where it is called first, and three steps more than there are sockets
-- bring it to its end, whatever requests and sockets do in between; then the loops of all sockets that
-- were in the map are over, and stay so.
pub ws_close_returns :
    (before after : List WsAction)
    → (ws_steps new_ws_server before).closer ≡ uncalled
    → length (ws_steps new_ws_server before).sockets + 3 ≤ closes after
    → let s : WsServer = ws_steps new_ws_server before in
      let t : WsServer = ws_steps (ws_step s close) after in
      (t.closer ≡ returned) × ((i : ℕ) → has i s.sockets ≡ true → t.live i ≡ false)
ws_close_returns before after e enough =
    let s : WsServer = ws_steps new_ws_server before in
    let tracked : IsTracked s = ws_steps-IsTracked before in
    let (same, swept) = begin-IsSwept s tracked e in
    let end : IsSwept s.sockets (ws_steps (ws_step s close) after) =
      ws_steps-IsSwept after s.sockets (ws_step s close) (ws_step-IsTracked s close tracked)
        swept in
    let at_end : (ws_steps (ws_step s close) after).closer ≡ returned =
      over_at_last (ws_steps (ws_step s close) after).closer end.called (
        omega (
          arith,
          (rank-steps after (ws_step s close) swept.called).1,
          ap (λ t. rank t.closer) same,
          enough,
        )) in
    (
      at_end,
      λ i h. elim (Bool-cases ((ws_steps (ws_step s close) after).live i)) [
        | inl l ↦
            absurd (true_ne_false (sym (end.swept i h l) ∙ ap (λ c. has i (left_of c)) at_end))
        | inr l ↦ l
      ],
    )
