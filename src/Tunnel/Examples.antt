-- ===== src/Tunnel/Examples.antt =====
-- The tunnel's theorems on concrete connections.
use gotu.Base.{◌≤◌, refl, length, ℕ, zero, suc, ◌≡◌, arith, true, pos, [], ◌∷◌, not_enough}
use gotu.Wire.{Bytes, ok, err}
use gotu.Common.{◌-64◌}
use gotu.Tunnel.{pack, unpack}
use gotu.Tunnel.Snmp.{TunSnmpBase, new_tun_snmp_base, recv_client, recv_proxy, add_latency, TunSnmp}
use gotu.Net.Udp.ReadLoop.{read_from_udp}
use gotu.Tunnel.Registry.Cut.{room, through, tunnel_cuts}
use gotu.Tunnel.Registry.{on_msg, on_proxy_msg, Registry, mode_client, mode_server}
use gotu.Tunnel.Registry.Tunnels.{unpack-pack, unpack_short}

unpack-pack_example :
    unpack (pos 250) (pack (pos 200) (1 ∷ 2 ∷ [])) ≡ ok (pos 250 -64 pos 200, 1 ∷ 2 ∷ [])
unpack-pack_example = unpack-pack (pos 200) (pos 250) (1 ∷ 2 ∷ []) (omega arith, omega arith)

unpack_short_example : unpack (pos 250) (1 ∷ 2 ∷ []) ≡ err (not_enough 2)
unpack_short_example = unpack_short (pos 250) (1 ∷ 2 ∷ []) (omega arith)

abbrev client_end : Registry
client_end = record {
  proxy_addr = "127.0.0.1:9000";
  mode = mode_client;
  header = true;
  in_loss = 0;
  in_latency = 0;
  out_loss = 0;
  out_latency = 0;
}

abbrev server_end : Registry
server_end = record client_end { mode = mode_server }

abbrev fresh : TunSnmpBase
fresh = new_tun_snmp_base

abbrev replicate : ℕ → ℕ → Bytes
replicate zero b = []
replicate (suc n) b = b ∷ replicate n b

tunnel_cuts_example :
    ((wire : Bytes) × (on_msg client_end (pos 200) fresh (read_from_udp (1 ∷ 2 ∷ []))
        ≡ (recv_client 2 fresh, ok wire))
      × (on_msg server_end (pos 250) fresh (read_from_udp wire)
          ≡ (recv_client 2 (add_latency (pos 250 -64 pos 200) fresh), ok (1 ∷ 2 ∷ []))))
    × ((wire : Bytes) × (on_proxy_msg server_end (pos 200) fresh (read_from_udp (1 ∷ 2 ∷ []))
          ≡ (recv_proxy 2 fresh, ok wire))
        × (on_proxy_msg client_end (pos 250) fresh (read_from_udp wire)
            ≡ (recv_proxy 2 (add_latency (pos 250 -64 pos 200) fresh), ok (1 ∷ 2 ∷ []))))
    × (2 ≤ room → through (1 ∷ 2 ∷ []) ≡ 1 ∷ 2 ∷ [])
tunnel_cuts_example =
    tunnel_cuts client_end server_end refl refl refl refl (pos 200) (pos 250) (omega arith) fresh
      fresh (1 ∷ 2 ∷ [])

-- A datagram of 1020 bytes fits the buffer of the first socket, and four of its bytes are lost.
cut_of_1020 :
    (length (read_from_udp (replicate 1020 7)) ≡ 1020)
    × (length (through (replicate 1020 7)) ≡ 1016)
cut_of_1020 = (refl, refl)

abbrev measured : TunSnmpBase
measured = record fresh {
  recv_client_bytes = 10;
  recv_client_packets = 1;
  proxy_latencys = pos 30 ∷ pos 10 ∷ pos 20 ∷ [];
}

abbrev one_connection : TunSnmp
one_connection = record {
  total = record fresh { recv_client_bytes = 5; proxy_latencys = pos 15 ∷ [] };
  snmps = ("a", 0) ∷ [];
  heap = record { id = "a"; base = measured } ∷ [];
}
