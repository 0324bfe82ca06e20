-- ===== src/Net/Websocket/Server/Examples.antt =====
-- A websocket server at work.
use gotu.Base.{◌≡◌, refl, true, false, List, [], ◌∷◌, arith, ℕ}
use gotu.Net.Server.{has}
use gotu.Net.Websocket.Server.{
  WsServer, new_ws_server, WsAction, request, refused, upgraded, add, leaves, delete, close,
  returned, ws_step, ws_steps,
}
use gotu.Net.Websocket.Server.Tracked.{IsTracked, ws_steps-IsTracked}
use gotu.Net.Websocket.Server.Close.{ws_close_returns}
use gotu.Net.Websocket.Server.Late.{late_websocket_left}

-- Three requests: the first is a websocket in the map, the second one is made, the third failed.
abbrev busy : List WsAction
busy = request ∷ upgraded 0 ∷ add 0 ∷ request ∷ request ∷ upgraded 1 ∷ refused 2 ∷ []

-- Close, beside the end of the first request.
abbrev closing_down : List WsAction
closing_down = close ∷ leaves 0 ∷ close ∷ add 1 ∷ delete 0 ∷ close ∷ close ∷ []

busy_run :
    ((ws_steps new_ws_server busy).sockets ≡ 0 ∷ []) × ((ws_steps new_ws_server busy).next ≡ 3)
unfolding ws_steps
busy_run = (refl, refl)

ws_steps-IsTracked_example : IsTracked (ws_steps new_ws_server busy)
ws_steps-IsTracked_example = ws_steps-IsTracked busy

ws_close_returns_example :
    let t : WsServer = ws_steps (ws_step (ws_steps new_ws_server busy) close) closing_down in
    (t.closer ≡ returned)
    × ((i : ℕ) → has i (ws_steps new_ws_server busy).sockets ≡ true → t.live i ≡ false)
unfolding ws_steps
ws_close_returns_example = ws_close_returns busy closing_down refl (omega arith)

late_websocket_left_example :
    let t : WsServer = ws_steps (ws_step (ws_steps new_ws_server busy) close) closing_down in
    (t.closer ≡ returned) × (t.live 1 ≡ true)
unfolding ws_steps
late_websocket_left_example =
    late_websocket_left busy closing_down 1 refl refl refl (omega arith) (omega arith)
