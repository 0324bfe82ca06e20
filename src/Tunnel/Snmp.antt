-- ===== src/Tunnel/Snmp.antt =====
-- snmp.go: the counters of a tunnel connection and of all of them together. Pointers to a connection's
-- counters are numbers, the positions at which `heap` holds them.
pub mod Totals
pub mod Delays
use gotu.Base.{
  ℕ, zero, suc, ◌+◌, ◌*◌, ◌/◌, ◌%◌, ◌^◌, Bool, true, false, Option, none, some, List, [], ◌∷◌, ◌++◌,
  ℤ, pos, ltb_ℤ, ltb, if◌then◌else◌, length, take,
}
use gotu.Common.{◌+64◌, safe_division}
use Prim.Native.String.{String}
use text.Mathlib.Text.{◌==◌}

-- uint64 counters wrap; the latencies are int64.
pub record TunSnmpBase : Type 0 where
  pub recv_client_bytes : ℕ
  pub recv_client_packets : ℕ
  pub recv_proxy_bytes : ℕ
  pub recv_proxy_packets : ℕ
  pub proxy_latencys : List ℤ

abbrev pub u64 : ℕ → ℕ
u64 n = n % 2 ^ 64

abbrev pub new_tun_snmp_base : TunSnmpBase
new_tun_snmp_base = record {
  recv_client_bytes = 0;
  recv_client_packets = 0;
  recv_proxy_bytes = 0;
  recv_proxy_packets = 0;
  proxy_latencys = [];
}

unfoldable pub recv_client : ℕ → TunSnmpBase → TunSnmpBase
recv_client len b = record b {
  recv_client_bytes = u64 (b.recv_client_bytes + u64 len);
  recv_client_packets = u64 (b.recv_client_packets + 1);
}

unfoldable pub recv_proxy : ℕ → TunSnmpBase → TunSnmpBase
recv_proxy len b = record b {
  recv_proxy_bytes = u64 (b.recv_proxy_bytes + u64 len);
  recv_proxy_packets = u64 (b.recv_proxy_packets + 1);
}

unfoldable pub add_latency : ℤ → TunSnmpBase → TunSnmpBase
add_latency latency b = record b { proxy_latencys = b.proxy_latencys ++ (latency ∷ []) }

-- `add`: the counters `s` go onto `b`.
unfoldable pub add : TunSnmpBase → TunSnmpBase → TunSnmpBase
add b s = record {
  recv_client_bytes = u64 (b.recv_client_bytes + s.recv_client_bytes);
  recv_client_packets = u64 (b.recv_client_packets + s.recv_client_packets);
  recv_proxy_bytes = u64 (b.recv_proxy_bytes + s.recv_proxy_bytes);
  recv_proxy_packets = u64 (b.recv_proxy_packets + s.recv_proxy_packets);
  proxy_latencys = b.proxy_latencys ++ s.proxy_latencys;
}

pub record SingleTunSnmp : Type 0 where
  pub id : String
  pub base : TunSnmpBase

-- `tunSnmp`, with the objects that its map points to.
pub record TunSnmp : Type 0 where
  pub total : TunSnmpBase
  pub snmps : List (String × ℕ)
  pub heap : List SingleTunSnmp

abbrev pub find : String → List (String × ℕ) → Option ℕ
find id [] = none
find id ((k, p) ∷ m) = if k == id then some p else find id m

abbrev pub delete : String → List (String × ℕ) → List (String × ℕ)
delete id [] = []
delete id ((k, p) ∷ m) = if k == id then delete id m else (k, p) ∷ delete id m

-- `getSingleTunSnmp`: the object of the id, made anew where the map has none.
unfoldable pub get_single_tun_snmp : String → TunSnmp → TunSnmp × ℕ
get_single_tun_snmp id t = elim (find id t.snmps) [
  | some p ↦ (t, p)
  | none ↦ (
    record t {
      snmps = (id, length t.heap) ∷ t.snmps;
      heap = t.heap ++ (record { id = id; base = new_tun_snmp_base } ∷ []);
    },
    length t.heap,
  )
]

-- `sort.Sort` by `Less`: the sorted list of int64 values is the same by whatever algorithm.
abbrev insert_sorted : ℤ → List ℤ → List ℤ
insert_sorted x [] = x ∷ []
insert_sorted x (y ∷ ys) = if ltb_ℤ y x then y ∷ insert_sorted x ys else x ∷ y ∷ ys

abbrev pub sort : List ℤ → List ℤ
sort [] = []
sort (x ∷ xs) = insert_sorted x (sort xs)

pub record Sums : Type 0 where
  pub delay_100 : ℤ
  pub delay_99 : ℤ
  pub delay_95 : ℤ
  pub delay_90 : ℤ

abbrev add_if : Bool → ℤ → ℤ → ℤ
add_if b sum delay = if b then sum +64 delay else sum

-- The loop of `values` over the sorted delays, from index `i`; `n` is their number.
unfoldable pub sum_loop : ℕ → ℕ → List ℤ → Sums → Sums
sum_loop n i [] s = s
sum_loop n i (delay ∷ delays) s = sum_loop n (suc i) delays (record {
  delay_100 = add_if (ltb i n) s.delay_100 delay;
  delay_99 = add_if (ltb i (n * 99 / 100)) s.delay_99 delay;
  delay_95 = add_if (ltb i (n * 95 / 100)) s.delay_95 delay;
  delay_90 = add_if (ltb i (n * 90 / 100)) s.delay_90 delay;
})

-- The numbers of a row of the table, and the object with its delays sorted.
pub record Values : Type 0 where
  pub counters : TunSnmpBase
  pub average_90 : ℤ
  pub average_95 : ℤ
  pub average_99 : ℤ
  pub average_100 : ℤ

abbrev no_sums : Sums
no_sums = record { delay_100 = pos 0; delay_99 = pos 0; delay_95 = pos 0; delay_90 = pos 0 }

unfoldable pub values : TunSnmpBase → Values
unfolding sum_loop
values b =
    let data' = sort b.proxy_latencys in
    let n = length data' in
    let s = sum_loop n 0 data' no_sums in
    record {
      counters = record b { proxy_latencys = data' };
      average_90 = safe_division s.delay_90 (n * 90 / 100);
      average_95 = safe_division s.delay_95 (n * 95 / 100);
      average_99 = safe_division s.delay_99 (n * 99 / 100);
      average_100 = safe_division s.delay_100 n;
    }

-- The object at a pointer, and a write to it.
abbrev pub object : ℕ → List SingleTunSnmp → Option SingleTunSnmp
object p [] = none
object zero (x ∷ heap) = some x
object (suc p) (x ∷ heap) = object p heap

abbrev pub write : ℕ → SingleTunSnmp → List SingleTunSnmp → List SingleTunSnmp
write p v [] = []
write zero v (x ∷ heap) = v ∷ heap
write (suc p) v (x ∷ heap) = x ∷ write p v heap

-- `close`: a copy of the object goes onto the total, both rows of the table are computed, which sorts
-- the delays of both in place, and the id leaves the map. A pointer is always that of an object.
unfoldable pub close : ℕ → TunSnmp → TunSnmp
unfolding add values
close p t = elim (object p t.heap) [
  | none ↦ t
  | some sts ↦ record t {
    total = (values (add t.total sts.base)).counters;
    snmps = delete sts.id t.snmps;
    heap = write p (record sts { base = (values sts.base).counters }) t.heap;
  }
]
