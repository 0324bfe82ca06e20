-- ===== src/Net/Websocket/Server/Swept.antt =====
-- The sockets that were in the map when Close of websocket_server.go took the lock.
use gotu.Base.{
  ℕ, suc, ◌≡◌, refl, sym, ap, ◌∙◌, true, List, [], ◌∷◌, arith, if_either, if_both, subst,
  true_ne_false,
}
use gotu.Net.Server.{has, without}
use gotu.Net.Websocket.Server.{
  RequestAt, upgrading, adding, serving, deleting, done, ClosingAt, uncalled, sweeping, stopping,
  waiting, returned, WsServer, WsAction, request, refused, upgraded, add, ends, leaves, delete,
  listen_failed, close, set, goes, is_upgrading, is_adding, is_serving, is_deleting, over,
  on_closing, ws_step, ws_steps,
}
use gotu.Net.Websocket.Server.Tracked.{IsTracked, ws_step-IsTracked, is_upgrading→eq}
use gotu.Net.Websocket.Server.Sweep.{left_of, is_called, is_begun}

-- `xs` are sockets of the map as Close took the lock: those that still run are those to come.
pub record IsSwept (xs : List ℕ) (s : WsServer) : Type 0 where
  pub began : (i : ℕ) → has i xs ≡ true → is_begun (s.at i) ≡ true
  pub swept : (i : ℕ) → has i xs ≡ true → s.live i ≡ true → has i (left_of s.closer) ≡ true
  pub called : is_called s.closer ≡ true

request-IsSwept :
    (xs : List ℕ) (s : WsServer)
    → IsTracked s
    → IsSwept xs s
    → IsSwept xs (record (goes s.next upgrading s) { next = suc s.next })
request-IsSwept xs s t h = record {
  began = λ i e. ground (arith, h.began i e, (t.tracked s.next).fresh);
  swept = h.swept;
  called = h.called;
}

-- A request that is at work stays so.
goes-IsSwept :
    (xs : List ℕ) (s : WsServer) (i : ℕ) (p : RequestAt)
    → is_begun p ≡ true
    → IsSwept xs s
    → IsSwept xs (goes i p s)
goes-IsSwept xs s i p b h = record {
  began = λ j e. ground (arith, h.began j e, b);
  swept = h.swept;
  called = h.called;
}

upgraded-IsSwept :
    (xs : List ℕ) (s : WsServer) (i : ℕ)
    → is_upgrading (s.at i) ≡ true
    → IsSwept xs s
    → IsSwept xs (record (goes i adding s) { live = set i true s.live })
upgraded-IsSwept xs s i u h = record {
  began = λ j e. ground (arith, h.began j e);
  swept = λ j e l. ground (arith, h.began j e, h.swept j e, l, is_upgrading→eq (s.at i) u);
  called = h.called;
}

over-IsSwept : (xs : List ℕ) (s : WsServer) (i : ℕ) → IsSwept xs s → IsSwept xs (over i s)
over-IsSwept xs s i h = record {
  began = h.began;
  swept = λ j e l. ground (arith, h.swept j e, l);
  called = h.called;
}

closing-IsSwept :
    (xs : List ℕ) (c : ClosingAt) (s : WsServer)
    → s.closer ≡ c
    → IsSwept xs s
    → IsSwept xs (on_closing c s)
unfolding on_closing
closing-IsSwept xs uncalled s e h = absurd (true_ne_false (sym h.called ∙ ap is_called e))
closing-IsSwept xs (sweeping []) s e h = record {
  began = h.began;
  swept = λ i k l. ground (arith, h.swept i k l, e);
  called = refl;
}
closing-IsSwept xs (sweeping (i ∷ is)) s e h = record {
  began = h.began;
  swept = λ j k l. ground (arith, h.swept j k, l, e);
  called = refl;
}
closing-IsSwept xs stopping s e h = record {
  began = h.began;
  swept = λ i k l. ground (arith, h.swept i k l, e);
  called = refl;
}
closing-IsSwept xs waiting s e h = record {
  began = h.began;
  swept = λ i k l. ground (arith, h.swept i k l, e);
  called = refl;
}
closing-IsSwept xs returned s e h = h

resocket : (xs ys : List ℕ) (s : WsServer) → IsSwept xs s → IsSwept xs (record s { sockets = ys })
resocket xs ys s h = record { began = h.began; swept = h.swept; called = h.called }

ws_step-IsSwept :
    (xs : List ℕ) (s : WsServer) (a : WsAction)
    → IsTracked s
    → IsSwept xs s
    → IsSwept xs (ws_step s a)
unfolding ws_step
ws_step-IsSwept xs s request t h = if_both (IsSwept xs) s.http (request-IsSwept xs s t h) h
ws_step-IsSwept xs s (refused i) t h =
    if_both (IsSwept xs) (is_upgrading (s.at i)) (goes-IsSwept xs s i done refl h) h
ws_step-IsSwept xs s (upgraded i) t h =
    if_either (IsSwept xs) (is_upgrading (s.at i)) (λ e. upgraded-IsSwept xs s i e h) (λ e. h)
ws_step-IsSwept xs s (add i) t h =
    if_both (IsSwept xs) (is_adding (s.at i))
      (if_both (IsSwept xs) s.mu h (
        resocket xs (i ∷ without i s.sockets) (goes i serving s)
          (goes-IsSwept xs s i serving refl h)))
      h
ws_step-IsSwept xs s (leaves i) t h =
    if_both (IsSwept xs) (is_serving (s.at i))
      (if_both (IsSwept xs) (s.live i) h (goes-IsSwept xs s i deleting refl h)) h
ws_step-IsSwept xs s (delete i) t h =
    if_both (IsSwept xs) (is_deleting (s.at i))
      (if_both (IsSwept xs) s.mu h
        (resocket xs (without i s.sockets) (goes i done s) (goes-IsSwept xs s i done refl h)))
      h
ws_step-IsSwept xs s (ends i) t h = over-IsSwept xs s i h
ws_step-IsSwept xs s listen_failed t h = record {
  began = h.began;
  swept = h.swept;
  called = h.called;
}
ws_step-IsSwept xs s close t h = closing-IsSwept xs s.closer s refl h

pub ws_steps-IsSwept :
    (actions : List WsAction) (xs : List ℕ) (s : WsServer)
    → IsTracked s
    → IsSwept xs s
    → IsSwept xs (ws_steps s actions)
unfolding ws_steps
ws_steps-IsSwept [] xs s t h = h
ws_steps-IsSwept (a ∷ actions) xs s t h =
    ws_steps-IsSwept actions xs (ws_step s a) (ws_step-IsTracked s a t) (ws_step-IsSwept xs s a t h)

-- Close has just taken the lock.
pub begin-IsSwept :
    (s : WsServer)
    → IsTracked s
    → s.closer ≡ uncalled
    → (ws_step s close ≡ record s { mu = true; closer = sweeping s.sockets })
      × IsSwept s.sockets (ws_step s close)
unfolding ws_step on_closing
begin-IsSwept s t e =
    let same : ws_step s close ≡ record s { mu = true; closer = sweeping s.sockets } =
      ground (arith, e, t.lock) in
    (
      same,
      subst (IsSwept s.sockets) (sym same) (record {
        began = λ i h. ground (arith, h, (t.tracked i).listed);
        swept = λ i h l. h;
        called = refl;
      }),
    )
