-- ===== src/Tunnel/Registry/Connect.antt =====
-- registry.go and state.go: a connection of the tunnel, from OnConnect to OnDisconnect. `name` is the
-- name of its latency actor and `id` that of its counters, both made of its addresses; `actor` is what
-- runs under the name, and `d` what the dial of its UDP client comes to.
pub mod Life
mod Examples
use gotu.Base.{ℕ, Bool, true, false, ℤ, Option, none, some, List, [], ◌∷◌, Error}
use gotu.Wire.{Bytes, Result, ok, err}
use gotu.Actor.{Actors, register_actor, deregister_actor, get_actor}
use gotu.Net.Client
use gotu.Net.Client.{Client, SocketOps, Dialled, udp, new_client}
use gotu.Tunnel.Snmp
use gotu.Tunnel.Snmp.{TunSnmpBase, TunSnmp, get_single_tun_snmp}
use gotu.Tunnel.Registry.{Mode, mode_normal, mode_client, mode_server, Registry, Passed, on_msg}
use Prim.Native.String.{String}

-- `none` is a nil pointer; `snmp` is the position of the counters, `latency` the actor's name.
pub record State (T : Type 0) : Type 0 where
  pub latency : Option String
  pub cli : Option (Client T)
  pub snmp : Option ℕ

-- What the connections share: the actors and the statistics.
pub record World (A : Type 0) : Type 0 where
  pub actors : Actors A
  pub tun : TunSnmp

abbrev pub get_snmp : Mode → String → TunSnmp → TunSnmp × Option ℕ
get_snmp mode_normal id t = (t, none)
get_snmp mode_client id t = let (t', p) = get_single_tun_snmp id t in (t', some p)
get_snmp mode_server id t = let (t', p) = get_single_tun_snmp id t in (t', some p)

abbrev pub close_snmp : Option ℕ → TunSnmp → TunSnmp
close_snmp none t = t
close_snmp (some p) t = Snmp.close p t

module _ {A T : Type 0} where
  -- What OnConnect does with the answer of NewLatencyActor, which registers the actor; the state that
  -- there is so far is returned where this or the making of the client fails.
  abbrev pub connected :
      String → Dialled T → World A → Option ℕ → Result (Actors A) → World A × State T
  connected name d w snmp (err e) = (w, record { latency = none; cli = none; snmp = snmp })
  connected name d w snmp (ok actors) = (
    record w { actors = actors },
    record { latency = some name; cli = (new_client udp d).0; snmp = snmp },
  )

  unfoldable pub on_connect :
      Registry → String → String → A → Dialled T → World A → World A × State T
  on_connect r name id actor d w =
      let (tun, snmp) = get_snmp r.mode id w.tun in
      connected name d (record w { tun = tun }) snmp (register_actor name actor w.actors)

module _ {T : Type 0} where
  -- `OnMsg` to its end: with a nil latency actor, `s.latency.Name()` panics, which is none.
  abbrev pub passed : State T → Passed → Option Passed
  passed s (snmp, err e) = some (snmp, err e)
  passed s (snmp, ok msg) = elim s.latency [ none ↦ none | some name ↦ some (snmp, ok msg) ]

  unfoldable pub on_client_msg : Registry → ℤ → TunSnmpBase → State T → Bytes → Option Passed
  on_client_msg r now snmp s msg = passed s (on_msg r now snmp msg)

module _ {A : Type 0} where
  -- The actor of the name is closed and leaves the map, if it is there.
  abbrev pub close_actor : String → Actors A → Actors A
  close_actor name actors = elim (get_actor name actors) [
    | err e ↦ actors
    | ok actor ↦ deregister_actor name actors
  ]

  abbrev pub close_latency : Option String → World A → Option (World A)
  close_latency none w = none
  close_latency (some name) w = some (record w { actors = close_actor name w.actors })

module _ {A T : Type 0} where
  -- `none` is the panic of a nil client or a nil actor.
  unfoldable pub on_disconnect : SocketOps T → World A → State T → Option (World A)
  on_disconnect ops w s = elim s.cli [
    | none ↦ none
    | some cli ↦ elim (Client.close ops cli) [
      | none ↦ none
      | some closed ↦ close_latency s.latency (record w { tun = close_snmp s.snmp w.tun })
    ]
  ]
