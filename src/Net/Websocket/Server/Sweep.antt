-- ===== src/Net/Websocket/Server/Sweep.antt =====
-- The steps of Close of websocket_server.go among those of requests and sockets.
use gotu.Base.{
  ℕ, suc, ◌+◌, ◌-◌, ◌≡◌, refl, sym, ap, ◌∙◌, Bool, true, false, List, [], ◌∷◌, if◌then◌else◌,
  length, arith, Bool-cases, inl, inr, true_ne_false,
}
use gotu.Net.Websocket.Server.{
  RequestAt, idle, upgrading, ClosingAt, uncalled, sweeping, stopping, waiting, returned, WsServer,
  WsAction, request, refused, upgraded, add, ends, leaves, delete, listen_failed, close, on_closing,
  ws_step, ws_steps,
}

abbrev pub is_close : WsAction → Bool
is_close close = true
is_close _ = false

-- The steps of Close among others.
abbrev pub closes : List WsAction → ℕ
closes [] = 0
closes (a ∷ actions) = if is_close a then suc (closes actions) else closes actions

-- The sockets that Close has still to close.
abbrev pub left_of : ClosingAt → List ℕ
left_of (sweeping is) = is
left_of _ = []

abbrev pub is_called : ClosingAt → Bool
is_called uncalled = false
is_called _ = true

abbrev pub rank : ClosingAt → ℕ
rank (sweeping is) = 3 + length is
rank stopping = 2
rank waiting = 1
rank _ = 0

abbrev pub is_begun : RequestAt → Bool
is_begun idle = false
is_begun upgrading = false
is_begun _ = true

-- Steps of requests and sockets leave Close where it is.
closer-same : (s : WsServer) (a : WsAction) → is_close a ≡ false → (ws_step s a).closer ≡ s.closer
unfolding ws_step
closer-same s request h = ground arith
closer-same s (refused i) h = ground arith
closer-same s (upgraded i) h = ground arith
closer-same s (add i) h = ground arith
closer-same s (leaves i) h = ground arith
closer-same s (delete i) h = ground arith
closer-same s (ends i) h = refl
closer-same s listen_failed h = refl
closer-same s close h = absurd (true_ne_false h)

rank-close :
    (c : ClosingAt) (s : WsServer)
    → is_called c ≡ true
    → s.closer ≡ c
    → (is_called (on_closing c s).closer ≡ true) × (rank (on_closing c s).closer ≡ rank c - 1)
unfolding on_closing
rank-close uncalled s h e = absurd (true_ne_false (sym h))
rank-close (sweeping []) s h e = (refl, refl)
rank-close (sweeping (i ∷ is)) s h e = (refl, omega arith)
rank-close stopping s h e = (refl, refl)
rank-close waiting s h e = (refl, refl)
rank-close returned s h e = (ap is_called e, ap rank e)

step_of_close :
    (s : WsServer) (a : WsAction) → is_close a ≡ true → ws_step s a ≡ on_closing s.closer s
unfolding ws_step
step_of_close s close h = refl
step_of_close s _ h = absurd (true_ne_false (sym h))

-- Each step of Close brings it one step nearer to its end, whatever comes in between.
pub rank-steps :
    (actions : List WsAction) (s : WsServer)
    → is_called s.closer ≡ true
    → (is_called (ws_steps s actions).closer ≡ true)
      × (rank (ws_steps s actions).closer ≡ rank s.closer - closes actions)
unfolding ws_steps
rank-steps [] s h = (h, omega arith)
rank-steps (a ∷ actions) s h = elim (Bool-cases (is_close a)) [
  | inl e ↦
      let (called, near) = rank-close s.closer s h refl in
      let same = step_of_close s a e in
      let ih = rank-steps actions (ws_step s a) (ap (λ t. is_called t.closer) same ∙ called) in
      (ih.0, rw e (omega (arith, ih.1, ap (λ t. rank t.closer) same, near)))
  | inr e ↦
      let same = closer-same s a e in
      let ih = rank-steps actions (ws_step s a) (ap is_called same ∙ h) in
      (ih.0, rw e (omega (arith, ih.1, ap rank same)))
]

pub over_at_last : (c : ClosingAt) → is_called c ≡ true → rank c ≡ 0 → c ≡ returned
over_at_last uncalled h e = absurd (true_ne_false (sym h))
over_at_last (sweeping is) h e = absurd (omega (arith, e))
over_at_last stopping h e = absurd (omega (arith, e))
over_at_last waiting h e = absurd (omega (arith, e))
over_at_last returned h e = refl
