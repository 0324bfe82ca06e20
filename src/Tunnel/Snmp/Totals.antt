-- ===== src/Tunnel/Snmp/Totals.antt =====
-- What the map of connections and the total keep.
use gotu.Base.{
  ℕ, ◌+◌, ◌≡◌, refl, ap, ◌∙◌, none, some, List, [], ◌∷◌, ◌++◌, length, arith, ◌⊎◌, inl, inr, false,
  Option-cases,
}
use gotu.Tunnel.Snmp.{
  u64, new_tun_snmp_base, SingleTunSnmp, TunSnmp, find, delete, get_single_tun_snmp, object, close,
}
use gotu.Tunnel.Snmp.Delays.{sort-perm}
use mathlib.Core.List.{Perm}
use Prim.Native.String.{String}
use text.Mathlib.Text.{◌==◌}
use text.Mathlib.TextPositions.{eq_refl}
use text.Mathlib.TextEquality.{eq_iff}

find-delete : (id : String) (m : List (String × ℕ)) → find id (delete id m) ≡ none
find-delete id [] = refl
find-delete id ((k, p) ∷ m) = ground (arith, find-delete id m)

find-delete_ne :
    (id other : String) (m : List (String × ℕ))
    → (id == other) ≡ false
    → find other (delete id m) ≡ find other m
find-delete_ne id other [] h = refl
find-delete_ne id other ((k, p) ∷ m) h =
    ground (arith, find-delete_ne id other m h, eq_iff k id, eq_iff k other, eq_iff id other)

object-snoc :
    (heap : List SingleTunSnmp) (x : SingleTunSnmp)
    → object (length heap) (heap ++ (x ∷ [])) ≡ some x
object-snoc [] x = refl
object-snoc (y ∷ heap) x = object-snoc heap x

abbrev added : String → TunSnmp → TunSnmp
added id t = record t {
  snmps = (id, length t.heap) ∷ t.snmps;
  heap = t.heap ++ (record { id = id; base = new_tun_snmp_base } ∷ []);
}

get-found :
    (id : String) (t : TunSnmp) (p : ℕ)
    → find id t.snmps ≡ some p
    → get_single_tun_snmp id t ≡ (t, p)
unfolding get_single_tun_snmp
get-found id t p e = rw (e, get_single_tun_snmp)

get-new :
    (id : String) (t : TunSnmp)
    → find id t.snmps ≡ none
    → get_single_tun_snmp id t ≡ (added id t, length t.heap)
unfolding get_single_tun_snmp
get-new id t e = rw (e, get_single_tun_snmp)

find-added : (id : String) (t : TunSnmp) → find id (added id t).snmps ≡ some (length t.heap)
find-added id t = rw (eq_refl id)

-- `t'` and `p` are the answer to asking `t` for the id.
abbrev pub IsAnswer : String → TunSnmp → TunSnmp → ℕ → Type 0
IsAnswer id t t' p =
    (get_single_tun_snmp id t' ≡ (t', p))
    × ((find id t.snmps ≡ some p)
        ⊎ ((find id t.snmps ≡ none)
            × (object p t'.heap ≡ some (record { id = id; base = new_tun_snmp_base }))))

-- `t'` is `t` with the connection `sts` closed; `other` is another connection's id.
abbrev pub IsClosed : SingleTunSnmp → String → TunSnmp → TunSnmp → Type 0
IsClosed sts other t t' =
    (t'.total.recv_client_bytes ≡ u64 (t.total.recv_client_bytes + sts.base.recv_client_bytes))
    × (t'.total.recv_client_packets
        ≡ u64 (t.total.recv_client_packets + sts.base.recv_client_packets))
    × (t'.total.recv_proxy_bytes ≡ u64 (t.total.recv_proxy_bytes + sts.base.recv_proxy_bytes))
    × (t'.total.recv_proxy_packets ≡ u64 (t.total.recv_proxy_packets + sts.base.recv_proxy_packets))
    × Perm t'.total.proxy_latencys (t.total.proxy_latencys ++ sts.base.proxy_latencys)
    × (find sts.id t'.snmps ≡ none)
    × (find other t'.snmps ≡ find other t.snmps)

-- Asking for a connection's counters again gives the same object; where the id was not there, a new
-- object with that id and no counts.
get_single_tun_snmp-IsAnswer :
    (id : String) (t : TunSnmp)
    → IsAnswer id t (get_single_tun_snmp id t).0 (get_single_tun_snmp id t).1
get_single_tun_snmp-IsAnswer id t = elim (Option-cases (find id t.snmps)) [
  | inl e ↦ rw (get-new id t e) (
    get-found id (added id t) (length t.heap) (find-added id t),
    inr (e, object-snoc t.heap (record { id = id; base = new_tun_snmp_base })),
  )
  | inr (p, e) ↦ rw (get-found id t p e) (get-found id t p e, inl e)
]

-- Closing a connection adds each of its counters to the total, modulo 2^64, and its delays to the
-- total's, in some order; its id leaves the map, and the entries of the other ids stay.
pub close-IsClosed :
    (p : ℕ) (t : TunSnmp) (sts : SingleTunSnmp) (other : String)
    → object p t.heap ≡ some sts
    → (sts.id == other) ≡ false
    → IsClosed sts other t (close p t)
unfolding close
close-IsClosed p t sts other h ne =
    rw (h, close)
      (
        refl,
        refl,
        refl,
        refl,
        sort-perm (t.total.proxy_latencys ++ sts.base.proxy_latencys),
        find-delete sts.id t.snmps,
        find-delete_ne sts.id other t.snmps ne,
      )

delete_fresh : (id : String) (m : List (String × ℕ)) → find id m ≡ none → delete id m ≡ m
delete_fresh id [] h = refl
delete_fresh id ((k, p) ∷ m) h = ground (arith, h, delete_fresh id m)

close-snmps :
    (p : ℕ) (t : TunSnmp) (sts : SingleTunSnmp)
    → object p t.heap ≡ some sts
    → (close p t).snmps ≡ delete sts.id t.snmps
unfolding close
close-snmps p t sts h = rw (h, close) refl

delete-added : (id : String) (t : TunSnmp) → delete id (added id t).snmps ≡ delete id t.snmps
delete-added id t = rw (eq_refl id) refl

-- A connection that was not there and is closed as it was made leaves the map as it was.
pub close-get :
    (id : String) (t : TunSnmp)
    → find id t.snmps ≡ none
    → (close (get_single_tun_snmp id t).1 (get_single_tun_snmp id t).0).snmps ≡ t.snmps
close-get id t h =
    let fresh : SingleTunSnmp = record { id = id; base = new_tun_snmp_base } in
    ap (λ c. (close c.1 c.0).snmps) (get-new id t h)
    ∙ (close-snmps (length t.heap) (added id t) fresh (object-snoc t.heap fresh)
        ∙ (delete-added id t ∙ delete_fresh id t.snmps h))
