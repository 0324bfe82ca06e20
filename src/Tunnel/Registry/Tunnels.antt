-- ===== src/Tunnel/Registry/Tunnels.antt =====
-- The two ends of a tunnel together: registry.go and codec.go.
use gotu.Base.{
  ◌<◌, ◌≡◌, refl, true, false, ℤ, pos, IsInt64, [], ◌++◌, length, length-append, arith, not_enough,
  take, drop,
}
use gotu.Wire.{Bytes, ok, err, put_int64}
use gotu.Wire.Laws.{get_int64-put_int64}
use gotu.Common.{◌-64◌}
use gotu.Tunnel.{header_sizeof, pack, unpack}
use gotu.Tunnel.Snmp.{TunSnmpBase, recv_client, recv_proxy, add_latency}
use gotu.Tunnel.Registry.{
  mode_normal, mode_client, mode_server, Registry, RegistryArgs, init_registry, on_msg,
  on_proxy_msg,
}

length-put_int64 : (z : ℤ) → length (put_int64 z) ≡ 8
unfolding put_int64
length-put_int64 z = refl

take-put_int64 : (z : ℤ) (msg : Bytes) → take 8 (put_int64 z ++ msg) ≡ put_int64 z ++ []
unfolding put_int64
take-put_int64 z msg = refl

drop-put_int64 : (z : ℤ) (msg : Bytes) → drop 8 (put_int64 z ++ msg) ≡ msg
unfolding put_int64
drop-put_int64 z msg = refl

-- Unpacking what was packed gives the message back, and the time between the two.
pub unpack-pack :
    (now then : ℤ) (msg : Bytes) → IsInt64 now → unpack then (pack now msg) ≡ ok (then -64 now, msg)
unfolding unpack pack
unpack-pack now then msg h = ground (
  arith,
  length-put_int64 now,
  length-append (put_int64 now) msg,
  length-append (put_int64 now) [],
  take-put_int64 now msg,
  drop-put_int64 now msg,
  get_int64-put_int64 now [] h,
)

-- A datagram that is shorter than the header is an error that names its length.
pub unpack_short :
    (now : ℤ) (msg : Bytes)
    → length msg < header_sizeof
    → unpack now msg ≡ err (not_enough (length msg))
unfolding unpack
unpack_short now msg h = ground arith

-- A datagram of a client enters at the proxy in mode client and leaves at the proxy in mode server as
-- it was. Both count one packet and its bytes, without the header; the server records the delay.
pub tunnel_forward :
    (c s : Registry) (t u : ℤ) (snmp_c snmp_s : TunSnmpBase) (msg : Bytes)
    → c.mode ≡ mode_client
    → s.mode ≡ mode_server
    → c.header ≡ true
    → s.header ≡ true
    → IsInt64 t
    → (wire : Bytes) × (on_msg c t snmp_c msg ≡ (recv_client (length msg) snmp_c, ok wire))
      × (on_msg s u snmp_s wire ≡ (recv_client (length msg) (add_latency (u -64 t) snmp_s), ok msg))
unfolding on_msg
tunnel_forward c s t u snmp_c snmp_s msg a b ha hb ht =
    (pack t msg, ground arith, ground (arith, unpack-pack t u msg ht))

-- The way back, with the roles of the two proxies changed.
pub tunnel_backward :
    (c s : Registry) (t u : ℤ) (snmp_c snmp_s : TunSnmpBase) (msg : Bytes)
    → c.mode ≡ mode_client
    → s.mode ≡ mode_server
    → c.header ≡ true
    → s.header ≡ true
    → IsInt64 t
    → (wire : Bytes) × (on_proxy_msg s t snmp_s msg ≡ (recv_proxy (length msg) snmp_s, ok wire))
      × (on_proxy_msg c u snmp_c wire
          ≡ (recv_proxy (length msg) (add_latency (u -64 t) snmp_c), ok msg))
unfolding on_proxy_msg
tunnel_backward c s t u snmp_c snmp_s msg a b ha hb ht =
    (pack t msg, ground arith, ground (arith, unpack-pack t u msg ht))

-- A registry is made for the modes 0, 1 and 2 alone, keeps the arguments, and in mode normal both
-- handlers pass every datagram on unchanged, whatever header was asked for, and count nothing.
init_registry-normal :
    (arg : RegistryArgs) (r : Registry) (now : ℤ) (snmp : TunSnmpBase) (msg : Bytes)
    → init_registry arg ≡ ok r
    → r.mode ≡ mode_normal
    → (arg.mode ≡ pos 0)
      × (r.header ≡ false)
      × (on_msg r now snmp msg ≡ (snmp, ok msg))
      × (on_proxy_msg r now snmp msg ≡ (snmp, ok msg))
unfolding init_registry on_msg on_proxy_msg
init_registry-normal arg r now snmp msg h k = ground arith
