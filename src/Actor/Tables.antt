-- ===== src/Actor/Tables.antt =====
-- The tables of handlers (handler.go) and of actors (manager.go).
use gotu.Base.{
  ℕ, ◌≡◌, refl, Option, none, some, List, [], ◌∷◌, arith, actor_repeated, actor_nil, ==→eq,
}
use gotu.Wire.{ok, err}
use gotu.Actor.{
  ActorHandlerArgs, ActorHandler, handler_of, add_all, new_actor_handler, Actors, named,
  register_actor, deregister_actor, get_actor,
}
use Prim.Native.String.{String}
use text.Mathlib.TextPositions.{eq_refl}

module _ {H : Type 0} where
  -- The first of two that is there.
  abbrev or_else : Option H → Option H → Option H
  or_else none o = o
  or_else (some h) o = some h

  add_all_lem :
      (table args table' : List (ℕ × H)) (t : ℕ)
      → add_all table args ≡ ok table'
      → handler_of t table' ≡ or_else (handler_of t table) (handler_of t args)
  unfolding add_all
  add_all_lem table [] table' t h = ground (arith, h)
  add_all_lem table ((u, f) ∷ args) table' t h =
      ground (arith, h, add_all_lem ((u, f) ∷ table) args table' t, ==→eq u t)

module _ {S Req Resp : Type 0} where
  built :
      (arg : ActorHandlerArgs S Req Resp) (h : ActorHandler S Req Resp)
      → new_actor_handler arg ≡ ok h
      → (add_all [] arg.syncs ≡ ok h.sync_handlers)
        × (add_all [] arg.asyncs ≡ ok h.async_handlers)
        × (h.tick_fns ≡ arg.tickers)
  unfolding new_actor_handler
  built arg h e = ground (arith, e)

  -- A table of handlers that could be made finds for every type of request the handler that the
  -- arguments give for it, synchronous and asynchronous, and none for the other types.
  new_actor_handler-handler_of :
      (arg : ActorHandlerArgs S Req Resp) (h : ActorHandler S Req Resp) (t : ℕ)
      → new_actor_handler arg ≡ ok h
      → (handler_of t h.sync_handlers ≡ handler_of t arg.syncs)
        × (handler_of t h.async_handlers ≡ handler_of t arg.asyncs)
        × (h.tick_fns ≡ arg.tickers)
  new_actor_handler-handler_of arg h t e =
      let (syncs, asyncs, tickers) = built arg h e in
      (
        add_all_lem [] arg.syncs h.sync_handlers t syncs,
        add_all_lem [] arg.asyncs h.async_handlers t asyncs,
        tickers,
      )

named-deregister :
    {A : Type 0} (name : String) (actors : Actors A)
    → named name (deregister_actor name actors) ≡ none
unfolding deregister_actor
named-deregister name [] = refl
named-deregister name ((n, a) ∷ actors) = ground (arith, named-deregister name actors)

-- An actor that was registered is found under its name, and a second one of that name is refused;
-- after its removal the name is free, and nothing is found under it.
register_actor-get_actor :
    {A : Type 0} (name : String) (actor other : A) (actors actors' : Actors A)
    → register_actor name actor actors ≡ ok actors'
    → (get_actor name actors' ≡ ok actor)
      × (register_actor name other actors' ≡ err (actor_repeated name))
      × (get_actor name (deregister_actor name actors') ≡ err (actor_nil name))
unfolding register_actor get_actor
register_actor-get_actor name actor other actors actors' h =
    ground (arith, h, eq_refl name, named-deregister name actors')

deregister_fresh :
    {A : Type 0} (name : String) (actors : Actors A)
    → named name actors ≡ none
    → deregister_actor name actors ≡ actors
unfolding deregister_actor
deregister_fresh name [] h = refl
deregister_fresh name ((n, a) ∷ actors) h = ground (arith, h, deregister_fresh name actors)

-- Taking out an actor that was put in under a free name leaves the map as it was.
pub deregister-added :
    {A : Type 0} (name : String) (actor : A) (actors : Actors A)
    → named name actors ≡ none
    → deregister_actor name ((name, actor) ∷ actors) ≡ actors
unfolding deregister_actor
deregister-added name actor actors h = rw (eq_refl name) (deregister_fresh name actors h)
