-- ===== src/Net/Server/Invariant.antt =====
-- What every schedule of tcp_server.go and kcp_server.go keeps.
use gotu.Base.{refl, List, [], ◌∷◌, if_both}
use gotu.Net.Server.{
  Kind, Server, new_server, has, without, Action, accepts, refuses, check, made, unmade, add, ends,
  release, close, step, steps,
}
use gotu.Net.Server.Sweep.{IsGuarded, over-IsGuarded}
use gotu.Net.Server.Moves.{
  on_close-IsGuarded, on_accept-IsGuarded, on_unmade-IsGuarded, release-IsGuarded,
}

pub step-IsGuarded :
    (kind : Kind) (s : Server) (a : Action) → IsGuarded kind s → IsGuarded kind (step kind s a)
unfolding step
step-IsGuarded kind s unmade v = on_unmade-IsGuarded kind s s.accept v
step-IsGuarded kind s (ends i) v = over-IsGuarded kind i s v
step-IsGuarded kind s (release i) v = if_both (IsGuarded kind) s.mu v (
    if_both (IsGuarded kind) (has i s.ending) (release-IsGuarded kind i (without i s.ending) s v) v)
step-IsGuarded kind s close v = on_close-IsGuarded kind s s.closer v
step-IsGuarded kind s accepts v = on_accept-IsGuarded kind s s.accept accepts v
step-IsGuarded kind s refuses v = on_accept-IsGuarded kind s s.accept refuses v
step-IsGuarded kind s check v = on_accept-IsGuarded kind s s.accept check v
step-IsGuarded kind s made v = on_accept-IsGuarded kind s s.accept made v
step-IsGuarded kind s add v = on_accept-IsGuarded kind s s.accept add v

steps-IsGuarded_from :
    (kind : Kind) (s : Server) (actions : List Action)
    → IsGuarded kind s
    → IsGuarded kind (steps kind s actions)
unfolding steps
steps-IsGuarded_from kind s [] v = v
steps-IsGuarded_from kind s (a ∷ actions) v =
    steps-IsGuarded_from kind (step kind s a) actions (step-IsGuarded kind s a v)

-- In every schedule: Close holds the lock exactly from its first step to the end of its loop over the
-- sockets (TCP) or to its own end (KCP), and closeCh is closed exactly once `close(closeCh)` is past;
-- once Close has returned the accept loop has ended; and while the loop runs every live socket of the
-- map is still to be closed, after it a KCP server's map has no live socket.
pub steps-IsGuarded :
    (kind : Kind) (actions : List Action) → IsGuarded kind (steps kind new_server actions)
steps-IsGuarded kind actions =
    steps-IsGuarded_from kind new_server actions
      (record { lock = refl; shutdown = refl; joined = refl; fresh = tt; swept = tt })
