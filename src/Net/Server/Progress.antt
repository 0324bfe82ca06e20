-- ===== src/Net/Server/Progress.antt =====
-- Close of tcp_server.go comes to its end.
use gotu.Base.{ℕ, zero, suc, ◌+◌, ◌≤◌, ◌<◌, ◌≡◌, refl, true, List, [], ◌∷◌, length, arith}
use gotu.Net.Server.{
  tcp, AcceptAt, accepting, got_conn, got_error, making, adding, finished, CloseAt, uncalled,
  closing, shutting, stopping, waiting, returned, Server, new_server, has, Action, refuses, check,
  made, add, close, on_accept, on_close, step, steps,
}
use gotu.Net.Server.Sweep.{IsGuarded}
use gotu.Net.Server.Invariant.{step-IsGuarded, steps-IsGuarded}
use gotu.Net.Server.Deadlock.{IsLate, is_past, spares, spared, step-IsLate, steps-IsLate}

-- What the accept loop does next while Close waits: the listener is closed, so Accept fails.
abbrev pub next_accept : AcceptAt → Action
next_accept accepting = refuses
next_accept got_conn = check
next_accept got_error = check
next_accept (making i) = made
next_accept (adding i) = add
next_accept finished = close

abbrev pub next_action : AcceptAt → CloseAt → Action
next_action at waiting = next_accept at
next_action at _ = close

-- Close runs, and the accept loop while Close waits for it.
unfoldable pub drive : ℕ → Server → Server
unfolding step
drive zero s = s
drive (suc n) s = drive n (step tcp s (next_action s.accept s.closer))

abbrev accept_rank : AcceptAt → ℕ
accept_rank finished = 0
accept_rank got_conn = 1
accept_rank got_error = 1
accept_rank accepting = 2
accept_rank (adding i) = 3
accept_rank (making i) = 4

abbrev close_rank : List ℕ → CloseAt → ℕ
close_rank sockets returned = 0
close_rank sockets waiting = 1
close_rank sockets stopping = 2
close_rank sockets shutting = 3
close_rank sockets (closing is) = 4 + length is
close_rank sockets uncalled = 5 + length sockets

-- A bound on the steps to the end of Close.
abbrev pub steps_left : Server → ℕ
steps_left s = elim s.closer [
  | returned ↦ 0
  | _ ↦ close_rank s.sockets s.closer + accept_rank s.accept
]

accept_progress :
    (s : Server) (at : AcceptAt)
    → IsGuarded tcp (record s { accept = at; closer = waiting })
    → steps_left (step tcp (record s { accept = at; closer = waiting }) (next_accept at))
      < 1 + accept_rank at
unfolding step on_accept on_close
accept_progress s finished v = omega arith
accept_progress s accepting v = omega arith
accept_progress s got_conn v = ground (arith, v.shutdown)
accept_progress s got_error v = ground (arith, v.shutdown)
accept_progress s (making i) v = omega arith
accept_progress s (adding i) v = ground (arith, v.lock)

progress :
    (s : Server) (at : CloseAt)
    → IsGuarded tcp (record s { closer = at })
    → steps_left (step tcp (record s { closer = at }) (next_action s.accept at)) + 1
      ≤ steps_left (record s { closer = at }) + (elim at [ returned ↦ 1 | _ ↦ 0 ])
unfolding step on_close
progress s uncalled v = ground (arith, v.lock)
progress s (closing []) v = omega arith
progress s (closing (i ∷ is)) v = ground arith
progress s shutting v = omega arith
progress s stopping v = omega arith
progress s waiting v = omega (arith, accept_progress s s.accept v)
progress s returned v = omega arith

-- One step of `drive` leaves less to do, or Close has returned.
fewer :
    (n : ℕ) (s : Server) (at : CloseAt)
    → IsGuarded tcp (record s { closer = at })
    → steps_left (record s { closer = at }) ≤ suc n
    → steps_left (step tcp (record s { closer = at }) (next_action s.accept at)) ≤ n
fewer n s uncalled v k = omega (arith, progress s uncalled v, k)
fewer n s (closing is) v k = omega (arith, progress s (closing is) v, k)
fewer n s shutting v k = omega (arith, progress s shutting v, k)
fewer n s stopping v k = omega (arith, progress s stopping v, k)
fewer n s waiting v k = omega (arith, progress s waiting v, k)
fewer n s returned v k = omega (arith, progress s returned v)

at_end : (s : Server) (at : CloseAt) → steps_left (record s { closer = at }) ≤ 0 → at ≡ returned
at_end s uncalled k = absurd (omega (arith, k))
at_end s (closing is) k = absurd (omega (arith, k))
at_end s shutting k = absurd (omega (arith, k))
at_end s stopping k = absurd (omega (arith, k))
at_end s waiting k = absurd (omega (arith, k))
at_end s returned k = refl

drive-returned :
    (n : ℕ) (s : Server) → IsGuarded tcp s → steps_left s ≤ n → (drive n s).closer ≡ returned
unfolding drive
drive-returned zero s v k = at_end s s.closer k
drive-returned (suc n) s v k =
    drive-returned n (step tcp s (next_action s.accept s.closer))
      (step-IsGuarded tcp s (next_action s.accept s.closer) v) (fewer n s s.closer v k)

-- Whatever has happened before, Close of a TCP server can always come to its end: it returns within
-- the steps that are counted, if it and the accept loop go on.
pub close_returns :
    (n : ℕ) (before : List Action)
    → steps_left (steps tcp new_server before) ≤ n
    → (drive n (steps tcp new_server before)).closer ≡ returned
close_returns n before k =
    drive-returned n (steps tcp new_server before) (steps-IsGuarded tcp before) k

next-spares : (i : ℕ) (at : AcceptAt) → spares i (next_accept at) ≡ true
next-spares i accepting = refl
next-spares i got_conn = refl
next-spares i got_error = refl
next-spares i (making j) = refl
next-spares i (adding j) = refl
next-spares i finished = refl

next_action-spares : (i : ℕ) (at : AcceptAt) (c : CloseAt) → spares i (next_action at c) ≡ true
next_action-spares i at waiting = next-spares i at
next_action-spares i at c = refl

drive-IsLate : (i n : ℕ) (s : Server) → IsLate i s → IsLate i (drive n s)
unfolding drive
drive-IsLate i zero s h = h
drive-IsLate i (suc n) s h =
    drive-IsLate i n (step tcp s (next_action s.accept s.closer))
      (step-IsLate i s (next_action s.accept s.closer) h (next_action-spares i s.accept s.closer))

-- A socket of a TCP server that is live when Close is past its loop over the sockets, such as one
-- that was being accepted, is left by Close: Close returns, and the socket goes on until it ends by
-- itself.
pub late_socket_left :
    (i n : ℕ) (before after : List Action)
    → is_past (steps tcp new_server before).closer ≡ true
    → has i (steps tcp new_server before).live ≡ true
    → steps_left (steps tcp new_server before) ≤ n
    → spared i after ≡ true
    → let s = drive n (steps tcp new_server before) in
      (s.closer ≡ returned) × (has i (steps tcp s after).live ≡ true)
late_socket_left i n before after p h k alone =
    let s = steps tcp new_server before in
    (
      close_returns n before k,
      (steps-IsLate i (drive n s) after (drive-IsLate i n s (p, h)) alone).1,
    )
