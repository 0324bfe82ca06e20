-- ===== src/Net/Server/Deadlock.antt =====
-- Close of kcp_server.go against a socket in the making, and of tcp_server.go against a late one.
use gotu.Base.{
  ℕ, ◌≡◌, refl, sym, ap, ◌∙◌, subst, Bool, true, false, not, ◌&&◌, List, [], ◌∷◌, ◌==◌, arith,
  if_both, true_ne_false,
}
use gotu.Net.Server.{
  tcp, kcp, AcceptAt, accepting, got_conn, got_error, making, adding, finished, CloseAt, uncalled,
  closing, shutting, stopping, waiting, returned, Server, new_server, has, Action, accepts, refuses,
  check, made, unmade, add, ends, release, close, over, on_accept, on_unmade, on_close, step, steps,
}
use gotu.Net.Server.Sweep.{IsGuarded, has-without, holds}
use gotu.Net.Server.Invariant.{steps-IsGuarded}

-- Close waits for the accept loop with the lock held, and the accept loop waits for the lock.
abbrev pub IsStuck : ℕ → Server → Type 0
IsStuck i s = (s.mu ≡ true) × (s.accept ≡ adding i) × (s.closer ≡ waiting)

abbrev stuck_at : ℕ → Server → Server
stuck_at i s = record s { mu = true; accept = adding i; closer = waiting }

step-stuck_at : (i : ℕ) (s : Server) (a : Action) → IsStuck i (step kcp (stuck_at i s) a)
unfolding step on_accept on_unmade on_close
step-stuck_at i s unmade = (refl, refl, refl)
step-stuck_at i s (ends j) =
    if_both (IsStuck i) (has j s.live) (refl, refl, refl) (refl, refl, refl)
step-stuck_at i s (release j) = (refl, refl, refl)
step-stuck_at i s close = (refl, refl, refl)
step-stuck_at i s accepts = (refl, refl, refl)
step-stuck_at i s refuses = (refl, refl, refl)
step-stuck_at i s check = (refl, refl, refl)
step-stuck_at i s made = (refl, refl, refl)
step-stuck_at i s add = (refl, refl, refl)

step-IsStuck : (i : ℕ) (s : Server) (a : Action) → IsStuck i s → IsStuck i (step kcp s a)
step-IsStuck i s a (m, ac, c) =
    subst (λ t. IsStuck i (step kcp t a))
      (λ j. record s { mu = sym m j; accept = sym ac j; closer = sym c j }) (step-stuck_at i s a)

steps-IsStuck :
    (i : ℕ) (s : Server) (actions : List Action) → IsStuck i s → IsStuck i (steps kcp s actions)
unfolding steps
steps-IsStuck i s [] h = h
steps-IsStuck i s (a ∷ actions) h = steps-IsStuck i (step kcp s a) actions (step-IsStuck i s a h)

made-adding :
    (i : ℕ) (s : Server) → s.accept ≡ making i → step kcp s made ≡ record s { accept = adding i }
unfolding step on_accept
made-adding i s e = ap (λ at. on_accept s at made) e

-- A KCP server whose Close has come to its wait while a socket is in the making: once the handshake of
-- that socket succeeds, Close never returns and the socket is never added, whatever happens later.
pub made-IsStuck :
    (before after : List Action) (i : ℕ)
    → (steps kcp new_server before).accept ≡ making i
    → (steps kcp new_server before).closer ≡ waiting
    → IsStuck i (steps kcp (step kcp (steps kcp new_server before) made) after)
made-IsStuck before after i e c =
    let s = steps kcp new_server before in
    let v : IsGuarded kcp s = steps-IsGuarded kcp before in
    let held : s.mu ≡ true = v.lock ∙ ap (holds kcp) c in
    steps-IsStuck i (step kcp s made) after
      (subst (IsStuck i) (sym (made-adding i s e)) (held, refl, c))

-- Close is past its loop over the sockets.
abbrev pub is_past : CloseAt → Bool
is_past uncalled = false
is_past (closing is) = false
is_past _ = true

-- Socket `i` does not end by itself.
abbrev pub spares : ℕ → Action → Bool
spares i (ends j) = not (j == i)
spares i a = true

abbrev pub spared : ℕ → List Action → Bool
spared i [] = true
spared i (a ∷ actions) = spares i a && spared i actions

abbrev pub IsLate : ℕ → Server → Type 0
IsLate i s = (is_past s.closer ≡ true) × (has i s.live ≡ true)

on_accept-IsLate :
    (i : ℕ) (s : Server) (at : AcceptAt) (a : Action)
    → IsLate i s
    → IsLate i (on_accept (record s { accept = at }) at a)
unfolding on_accept
on_accept-IsLate i s accepting accepts h = h
on_accept-IsLate i s accepting refuses h = h
on_accept-IsLate i s got_conn check h = if_both (IsLate i) s.close_ch h (h.0, ground (arith, h.1))
on_accept-IsLate i s got_error check h = if_both (IsLate i) s.close_ch h h
on_accept-IsLate i s (making j) made h = h
on_accept-IsLate i s (adding j) add h = if_both (IsLate i) s.mu h h
on_accept-IsLate i s at a h = h

wait-IsLate :
    (i : ℕ) (s : Server) (at : AcceptAt)
    → has i s.live ≡ true
    → IsLate i (on_close tcp (record s { accept = at; closer = waiting }) waiting)
unfolding on_close
wait-IsLate i s finished h = (refl, h)
wait-IsLate i s accepting h = (refl, h)
wait-IsLate i s got_conn h = (refl, h)
wait-IsLate i s got_error h = (refl, h)
wait-IsLate i s (making j) h = (refl, h)
wait-IsLate i s (adding j) h = (refl, h)

on_close-IsLate :
    (i : ℕ) (s : Server) (at : CloseAt)
    → IsLate i (record s { closer = at })
    → IsLate i (on_close tcp (record s { closer = at }) at)
unfolding on_close
on_close-IsLate i s uncalled (p, h) = absurd (true_ne_false (sym p))
on_close-IsLate i s (closing is) (p, h) = absurd (true_ne_false (sym p))
on_close-IsLate i s shutting (p, h) = (refl, h)
on_close-IsLate i s stopping (p, h) = (refl, h)
on_close-IsLate i s waiting (p, h) = wait-IsLate i s s.accept h
on_close-IsLate i s returned (p, h) = (refl, h)

over-IsLate : (i j : ℕ) (s : Server) → (j == i) ≡ false → IsLate i s → IsLate i (over j s)
over-IsLate i j s ne (p, h) =
    if_both (IsLate i) (has j s.live) (p, rw (has-without i j s.live) (ground (arith, ne, h)))
      (p, h)

pub step-IsLate :
    (i : ℕ) (s : Server) (a : Action) → IsLate i s → spares i a ≡ true → IsLate i (step tcp s a)
unfolding step on_unmade
step-IsLate i s unmade h k = h
step-IsLate i s (ends j) h k = over-IsLate i j s (ground (arith, k)) h
step-IsLate i s (release j) h k =
    if_both (IsLate i) s.mu h (if_both (IsLate i) (has j s.ending) h h)
step-IsLate i s close h k = on_close-IsLate i s s.closer h
step-IsLate i s accepts h k = on_accept-IsLate i s s.accept accepts h
step-IsLate i s refuses h k = on_accept-IsLate i s s.accept refuses h
step-IsLate i s check h k = on_accept-IsLate i s s.accept check h
step-IsLate i s made h k = on_accept-IsLate i s s.accept made h
step-IsLate i s add h k = on_accept-IsLate i s s.accept add h

pub steps-IsLate :
    (i : ℕ) (s : Server) (actions : List Action)
    → IsLate i s
    → spared i actions ≡ true
    → IsLate i (steps tcp s actions)
unfolding steps
steps-IsLate i s [] h k = h
steps-IsLate i s (a ∷ actions) h k =
    steps-IsLate i (step tcp s a) actions (step-IsLate i s a h (ground (arith, k)))
      (ground (arith, k))
