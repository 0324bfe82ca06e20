-- ===== src/Tunnel/Registry.antt =====
-- registry.go: the modes of the tunnel and its two message handlers. `snmp` holds the counters of the
-- connection; in mode normal there are none, and they stay as they are. A message that is passed on
-- goes to the latency actor of the connection.
pub mod Tunnels
pub mod Cut
pub mod Connect
use gotu.Base.{
  ℕ, zero, suc, Bool, true, false, ℤ, pos, negsuc, Error, mode_invalid, length, if◌then◌else◌,
}
use gotu.Wire.{Bytes, Result, ok, err}
use gotu.Tunnel.{pack, unpack}
use gotu.Tunnel.Snmp.{TunSnmpBase, recv_client, recv_proxy, add_latency}
use Prim.Native.String.{String}

pub data Mode : Type 0 where
  mode_normal mode_client mode_server : Mode

pub record RegistryArgs : Type 0 where
  pub addr : String
  pub mode : ℤ
  pub header : Bool
  pub in_loss : ℕ
  pub in_latency : ℕ
  pub out_loss : ℕ
  pub out_latency : ℕ

pub record Registry : Type 0 where
  pub proxy_addr : String
  pub mode : Mode
  pub header : Bool
  pub in_loss : ℕ
  pub in_latency : ℕ
  pub out_loss : ℕ
  pub out_latency : ℕ

abbrev pub mode_of : ℤ → Result Mode
mode_of (pos zero) = ok mode_normal
mode_of (pos (suc zero)) = ok mode_client
mode_of (pos (suc (suc zero))) = ok mode_server
mode_of z = err (mode_invalid z)

-- Mode normal has no header, whatever is asked for.
abbrev pub header_of : Mode → Bool → Bool
header_of mode_normal header = false
header_of _ header = header

unfoldable pub init_registry : RegistryArgs → Result Registry
init_registry arg = elim (mode_of arg.mode) [
  | err e ↦ err e
  | ok mode ↦ ok (record {
    proxy_addr = arg.addr;
    mode = mode;
    header = header_of mode arg.header;
    in_loss = arg.in_loss;
    in_latency = arg.in_latency;
    out_loss = arg.out_loss;
    out_latency = arg.out_latency;
  })
]

-- A handler's outcome: the counters, and the message that is passed on or an error.
abbrev pub Passed : Type 0
Passed = TunSnmpBase × Result Bytes

-- `unpack`, with the delay counted; what the counters say of the message comes after it.
abbrev unpacked : ℤ → TunSnmpBase → Bytes → (ℕ → TunSnmpBase → TunSnmpBase) → Passed
unpacked now snmp msg count = elim (unpack now msg) [
  | err e ↦ (snmp, err e)
  | ok (delay, rest) ↦ (count (length rest) (add_latency delay snmp), ok rest)
]

-- `OnMsg`: a datagram from the listening side.
on_client : Mode → Bool → ℤ → TunSnmpBase → Bytes → Passed
on_client mode_normal header now snmp msg = (snmp, ok msg)
on_client mode_client true now snmp msg = (recv_client (length msg) snmp, ok (pack now msg))
on_client mode_client false now snmp msg = (recv_client (length msg) snmp, ok msg)
on_client mode_server true now snmp msg = unpacked now snmp msg recv_client
on_client mode_server false now snmp msg = (recv_client (length msg) snmp, ok msg)

unfoldable pub on_msg : Registry → ℤ → TunSnmpBase → Bytes → Passed
unfolding on_client
on_msg r now snmp msg = on_client r.mode r.header now snmp msg

-- The `OnMsg` that `OnConnect` gives its client: a datagram from the proxy's side.
on_proxy : Mode → Bool → ℤ → TunSnmpBase → Bytes → Passed
on_proxy mode_normal header now snmp msg = (snmp, ok msg)
on_proxy mode_client true now snmp msg = unpacked now snmp msg recv_proxy
on_proxy mode_client false now snmp msg = (recv_proxy (length msg) snmp, ok msg)
on_proxy mode_server true now snmp msg = (recv_proxy (length msg) snmp, ok (pack now msg))
on_proxy mode_server false now snmp msg = (recv_proxy (length msg) snmp, ok msg)

unfoldable pub on_proxy_msg : Registry → ℤ → TunSnmpBase → Bytes → Passed
unfolding on_proxy
on_proxy_msg r now snmp msg = on_proxy r.mode r.header now snmp msg
