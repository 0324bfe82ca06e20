-- ===== src/Tunnel/Registry/Connect/Life.antt =====
-- A connection of the tunnel (registry.go) from its begin to its end.
use gotu.Base.{
  ℤ, ℕ, ◌≡◌, refl, sym, ap, ◌∙◌, subst, Bool, true, false, not, ◌&&◌, Option, none, some, ◌∷◌,
  Option-cases, inl, inr, actor_repeated,
}
use gotu.Wire.{Bytes, Result, ok, err}
use gotu.Actor.{Actors, named, register_actor, get_actor}
use gotu.Net.Client
use gotu.Net.Client.{
  Client, SocketOps, Dialled, failed, unmade, opened, udp, new_client, new_socket,
}
use gotu.Net.Client.Calls.{is_nil}
use gotu.Tunnel.Snmp.{TunSnmp, TunSnmpBase, find}
use gotu.Tunnel.Registry.{Passed, on_msg, Mode, mode_normal, mode_client, mode_server, Registry}
use gotu.Tunnel.Registry.Connect.{
  passed, on_client_msg, World, connected, get_snmp, close_snmp, on_connect, close_actor,
  on_disconnect,
}
use gotu.Tunnel.Snmp.Totals.{close-get}
use gotu.Actor.Tables.{deregister-added}
use text.Mathlib.TextPositions.{eq_refl}
use Prim.Native.String.{String}

abbrev pub opens : {T : Type 0} → Dialled T → Bool
opens (failed e) = false
opens (unmade e) = false
opens (opened t) = true

abbrev pub is_ok : {R : Type 0} → Result R → Bool
is_ok (err e) = false
is_ok (ok x) = true

module _ {A T : Type 0} (ops : SocketOps T) (r : Registry) (name id : String) (actor : A) where
  -- OnDisconnect of what OnConnect left.
  abbrev pub life : Dialled T → World A → Option (World A)
  life d w = on_disconnect ops (on_connect r name id actor d w).0 (on_connect r name id actor d w).1

  register_free :
      (actors : Actors A)
      → named name actors ≡ none
      → register_actor name actor actors ≡ ok ((name, actor) ∷ actors)
  unfolding register_actor
  register_free actors e = rw (e, register_actor)

  register_taken :
      (actors : Actors A) (old : A)
      → named name actors ≡ some old
      → register_actor name actor actors ≡ err (actor_repeated name)
  unfolding register_actor
  register_taken actors old e = rw (e, register_actor)

  -- What OnConnect answers where the name is free, and where it is not.
  on_connect_free :
      (d : Dialled T) (w : World A)
      → named name w.actors ≡ none
      → on_connect r name id actor d w
        ≡ connected name d
            (record w { tun = (get_snmp r.mode id w.tun).0 })
            (get_snmp r.mode id w.tun).1
            (ok ((name, actor) ∷ w.actors))
  unfolding on_connect
  on_connect_free d w e =
      ap
        (connected name d (record w { tun = (get_snmp r.mode id w.tun).0 })
          (get_snmp r.mode id w.tun).1)
        (register_free w.actors e)

  on_connect_taken :
      (d : Dialled T) (w : World A) (old : A)
      → named name w.actors ≡ some old
      → on_connect r name id actor d w
        ≡ connected name d
            (record w { tun = (get_snmp r.mode id w.tun).0 })
            (get_snmp r.mode id w.tun).1
            (err (actor_repeated name))
  unfolding on_connect
  on_connect_taken d w old e =
      ap
        (connected name d (record w { tun = (get_snmp r.mode id w.tun).0 })
          (get_snmp r.mode id w.tun).1)
        (register_taken w.actors old e)

  disconnects :
      (w : World A) (d : Dialled T) (snmp : Option ℕ)
      → is_nil (
          on_disconnect ops w
            (record { latency = some name; cli = (new_client udp d).0; snmp = snmp }))
        ≡ not (opens d)
  unfolding on_disconnect new_client new_socket Client.close
  disconnects w (failed e) snmp = refl
  disconnects w (unmade e) snmp = refl
  disconnects w (opened t) snmp = refl

  life_nil :
      (d : Dialled T) (w : World A)
      → is_nil (life d w) ≡ not (is_nil (named name w.actors) && opens d)
  unfolding on_disconnect
  life_nil d w = elim (Option-cases (named name w.actors)) [
    | inl e ↦
        ap (λ c. is_nil (on_disconnect ops c.0 c.1)) (on_connect_free d w e)
        ∙ (disconnects
              (record { actors = (name, actor) ∷ w.actors; tun = (get_snmp r.mode id w.tun).0 }) d
              (get_snmp r.mode id w.tun).1
            ∙ ap (λ o. not (is_nil o && opens d)) (sym e))
    | inr (old, e) ↦
        ap (λ c. is_nil (on_disconnect ops c.0 c.1)) (on_connect_taken d w old e)
        ∙ ap (λ o. not (is_nil o && opens d)) (sym e)
  ]

  passed_lem :
      (latency : Option String) (cli : Option (Client T)) (snmp : Option ℕ) (p : Passed)
      → is_nil (passed (record { latency = latency; cli = cli; snmp = snmp }) p)
        ≡ (is_ok p.1 && is_nil latency)
  passed_lem latency cli snmp (counts, err e) = refl
  passed_lem none cli snmp (counts, ok msg) = refl
  passed_lem (some name) cli snmp (counts, ok msg) = refl

  message_nil :
      (d : Dialled T) (w : World A) (now : ℤ) (counts : TunSnmpBase) (msg : Bytes)
      → is_nil (on_client_msg r now counts (on_connect r name id actor d w).1 msg)
        ≡ (is_ok (on_msg r now counts msg).1 && not (is_nil (named name w.actors)))
  unfolding on_client_msg
  message_nil d w now counts msg = elim (Option-cases (named name w.actors)) [
    | inl e ↦
        ap (λ c. is_nil (passed c.1 (on_msg r now counts msg))) (on_connect_free d w e)
        ∙ (passed_lem (some name) (new_client udp d).0 (get_snmp r.mode id w.tun).1
              (on_msg r now counts msg)
            ∙ ap (λ o. is_ok (on_msg r now counts msg).1 && not (is_nil o)) (sym e))
    | inr (old, e) ↦
        ap (λ c. is_nil (passed c.1 (on_msg r now counts msg))) (on_connect_taken d w old e)
        ∙ (passed_lem none none (get_snmp r.mode id w.tun).1 (on_msg r now counts msg)
            ∙ ap (λ o. is_ok (on_msg r now counts msg).1 && not (is_nil o)) (sym e))
  ]

  -- A connection's end panics just where its begin did not find the name of its latency actor free or
  -- could not dial its UDP client; and a message of its peer that the codec lets through panics just
  -- where the name was not free.
  pub on_disconnect-on_connect :
      (d : Dialled T) (w : World A) (now : ℤ) (counts : TunSnmpBase) (msg : Bytes)
      → (is_nil (life d w) ≡ not (is_nil (named name w.actors) && opens d))
        × (is_nil (on_client_msg r now counts (on_connect r name id actor d w).1 msg)
            ≡ (is_ok (on_msg r now counts msg).1 && not (is_nil (named name w.actors))))
  on_disconnect-on_connect d w now counts msg = (life_nil d w, message_nil d w now counts msg)

close_actor-added :
    {A : Type 0} (name : String) (actor : A) (actors : Actors A)
    → named name actors ≡ none
    → close_actor name ((name, actor) ∷ actors) ≡ actors
unfolding get_actor
close_actor-added name actor actors h =
    rw (eq_refl name, close_actor) (deregister-added name actor actors h)

close_snmp-get :
    (mode : Mode) (id : String) (t : TunSnmp)
    → find id t.snmps ≡ none
    → (close_snmp (get_snmp mode id t).1 (get_snmp mode id t).0).snmps ≡ t.snmps
close_snmp-get mode_normal id t h = refl
close_snmp-get mode_client id t h = close-get id t h
close_snmp-get mode_server id t h = close-get id t h

-- There is a world, with the actors of `w` and its map of statistics.
abbrev pub Restores : {A : Type 0} → World A → Option (World A) → Type 0
Restores w none = ⊥
Restores w (some w') = (w'.actors ≡ w.actors) × (w'.tun.snmps ≡ w.tun.snmps)

module _ {A T : Type 0} (ops : SocketOps T) (r : Registry) (name id : String) (actor : A) where
  -- Where the names of a connection's latency actor and of its counters are free and its UDP client can
  -- be dialled, its begin and end together leave the actors and the map of statistics as they were.
  pub life-Restores :
      (t : T) (w : World A)
      → named name w.actors ≡ none
      → find id w.tun.snmps ≡ none
      → Restores w (life ops r name id actor (opened t) w)
  unfolding on_disconnect new_client new_socket Client.close
  life-Restores t w free fresh =
      subst (λ c. Restores w (on_disconnect ops c.0 c.1))
        (sym (on_connect_free ops r name id actor (opened t) w free))
        (close_actor-added name actor w.actors free, close_snmp-get r.mode id w.tun fresh)
