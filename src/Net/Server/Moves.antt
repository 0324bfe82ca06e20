-- ===== src/Net/Server/Moves.antt =====
-- The steps of tcp_server.go and kcp_server.go, one by one.
use gotu.Base.{
  ℕ, suc, ◌≡◌, refl, sym, ◌∙◌, subst, true, false, List, [], ◌∷◌, if◌then◌else◌, arith, Bool-cases,
  inl, inr, if_both, if_either,
}
use gotu.Net.Server.{
  Kind, kcp, AcceptAt, accepting, got_conn, got_error, making, adding, finished, CloseAt, uncalled,
  closing, shutting, stopping, waiting, returned, Server, has, without, Action, accepts, refuses,
  check, made, add, on_accept, on_unmade, on_close,
}
use gotu.Net.Server.Sweep.{
  holds, is_returned, is_finished, may_live, IsGiven, IsSwept, IsGuarded, All-map, All-without,
  over-IsGuarded, close-IsSwept, skip-IsSwept, made-IsSwept, started-IsSwept, ended-IsSwept,
}

module _ (kind : Kind) where
  wait-IsGuarded :
      (s : Server) (at : AcceptAt)
      → IsGuarded kind (record s { closer = waiting; accept = at })
      → IsGuarded kind (on_close kind (record s { closer = waiting; accept = at }) waiting)
  unfolding on_close
  wait-IsGuarded s finished v = record {
    lock = refl;
    shutdown = v.shutdown;
    joined = refl;
    fresh = tt;
    swept = v.swept;
  }
  wait-IsGuarded s accepting v = v
  wait-IsGuarded s got_conn v = v
  wait-IsGuarded s got_error v = v
  wait-IsGuarded s (making i) v = v
  wait-IsGuarded s (adding i) v = v

  pub on_close-IsGuarded :
      (s : Server) (at : CloseAt)
      → IsGuarded kind (record s { closer = at })
      → IsGuarded kind (on_close kind (record s { closer = at }) at)
  unfolding on_close
  on_close-IsGuarded s uncalled v =
      subst
        (λ b. IsGuarded kind (
          if b
          then record s { closer = uncalled }
          else record s { mu = true; closer = closing s.sockets }))
        (sym v.lock)
        (record {
          lock = refl;
          shutdown = v.shutdown;
          joined = refl;
          fresh = v.fresh;
          swept = started-IsSwept kind s.live s.next s.sockets v.swept;
        })
  on_close-IsGuarded s (closing []) v = record {
    lock = refl;
    shutdown = v.shutdown;
    joined = refl;
    fresh = v.fresh;
    swept = All-map s.sockets (ended-IsSwept kind s.live s.next) v.swept;
  }
  on_close-IsGuarded s (closing (i ∷ is)) v = elim (Bool-cases (has i s.live)) [
    | inl e ↦ rw e (record {
      lock = v.lock;
      shutdown = v.shutdown;
      joined = refl;
      fresh = v.fresh;
      swept = All-map s.sockets (λ j. close-IsSwept kind i j is s.live s.next) v.swept;
    })
    | inr e ↦ rw e (record {
      lock = v.lock;
      shutdown = v.shutdown;
      joined = refl;
      fresh = v.fresh;
      swept = All-map s.sockets (λ j. skip-IsSwept kind i j is s.live s.next e) v.swept;
    })
  ]
  on_close-IsGuarded s shutting v = record {
    lock = v.lock;
    shutdown = refl;
    joined = refl;
    fresh = v.fresh;
    swept = v.swept;
  }
  on_close-IsGuarded s stopping v = record {
    lock = v.lock;
    shutdown = v.shutdown;
    joined = refl;
    fresh = v.fresh;
    swept = v.swept;
  }
  on_close-IsGuarded s waiting v = wait-IsGuarded s s.accept v
  on_close-IsGuarded s returned v = v

  -- The same state with `accept` elsewhere.
  abbrev moved : Server → AcceptAt → Server
  moved s at = record s { accept = at }

  moved-IsGuarded :
      (s : Server) (from to : AcceptAt)
      → is_finished from ≡ false
      → IsGiven s.next to
      → IsGuarded kind (moved s from)
      → IsGuarded kind (moved s to)
  moved-IsGuarded s from to running g v = record {
    lock = v.lock;
    shutdown = v.shutdown;
    joined = ground (arith, v.joined, running);
    fresh = g;
    swept = v.swept;
  }

  -- While the lock is free and Close has not returned, a live socket may stand in the map.
  may_live_lem :
      (at : CloseAt) (i : ℕ)
      → holds kind at ≡ false
      → is_returned at ≡ false
      → may_live kind at i ≡ true
  may_live_lem uncalled i h r = refl
  may_live_lem (closing is) i h r = ground (arith, h)
  may_live_lem shutting i h r = ground (arith, h)
  may_live_lem stopping i h r = ground (arith, h)
  may_live_lem waiting i h r = ground (arith, h)
  may_live_lem returned i h r = ground (arith, r)

  added-IsGuarded :
      (s : Server) (i : ℕ)
      → IsGuarded kind (moved s (adding i))
      → IsGuarded kind (
          if s.mu
          then moved s (adding i)
          else record s { accept = accepting; sockets = i ∷ without i s.sockets })
  added-IsGuarded s i v =
      if_either (IsGuarded kind) s.mu (λ e. v)
        λ e.
          let open_still : is_returned s.closer ≡ false = ground (arith, v.joined) in
          record {
            lock = v.lock;
            shutdown = v.shutdown;
            joined = ground (arith, open_still);
            fresh = tt;
            swept = (
              (v.fresh, ground (arith, may_live_lem s.closer i (sym v.lock ∙ e) open_still)),
              All-without (IsSwept kind s.closer s.live s.next) i s.sockets v.swept,
            );
          }

  made-IsGuarded :
      (s : Server)
      → IsGuarded kind (moved s got_conn)
      → IsGuarded kind
          (record s { accept = making s.next; live = s.next ∷ s.live; next = suc s.next })
  made-IsGuarded s v = record {
    lock = v.lock;
    shutdown = v.shutdown;
    joined = v.joined;
    fresh = omega arith;
    swept = All-map s.sockets (made-IsSwept kind s.closer s.live s.next) v.swept;
  }

  pub on_accept-IsGuarded :
      (s : Server) (at : AcceptAt) (a : Action)
      → IsGuarded kind (moved s at)
      → IsGuarded kind (on_accept (moved s at) at a)
  unfolding on_accept
  on_accept-IsGuarded s accepting accepts v = moved-IsGuarded s accepting got_conn refl tt v
  on_accept-IsGuarded s accepting refuses v = moved-IsGuarded s accepting got_error refl tt v
  on_accept-IsGuarded s got_conn check v =
      if_both (IsGuarded kind) s.close_ch (moved-IsGuarded s got_conn finished refl tt v)
        (made-IsGuarded s v)
  on_accept-IsGuarded s got_error check v =
      if_both (IsGuarded kind) s.close_ch (moved-IsGuarded s got_error finished refl tt v)
        (moved-IsGuarded s got_error accepting refl tt v)
  on_accept-IsGuarded s (making i) made v = moved-IsGuarded s (making i) (adding i) refl v.fresh v
  on_accept-IsGuarded s (adding i) add v = added-IsGuarded s i v
  on_accept-IsGuarded s at a v = v

pub on_unmade-IsGuarded :
    (kind : Kind) (s : Server) (at : AcceptAt)
    → IsGuarded kind (record s { accept = at })
    → IsGuarded kind (on_unmade kind (record s { accept = at }) at)
unfolding on_unmade
on_unmade-IsGuarded kcp s (making i) v =
    over-IsGuarded kcp i (record s { accept = accepting })
      (moved-IsGuarded kcp s (making i) accepting refl tt v)
on_unmade-IsGuarded kind s at v = v

pub release-IsGuarded :
    (kind : Kind) (i : ℕ) (ending : List ℕ) (s : Server)
    → IsGuarded kind s
    → IsGuarded kind (record s { sockets = without i s.sockets; ending = ending })
release-IsGuarded kind i ending s v = record {
  lock = v.lock;
  shutdown = v.shutdown;
  joined = v.joined;
  fresh = v.fresh;
  swept = All-without (IsSwept kind s.closer s.live s.next) i s.sockets v.swept;
}
