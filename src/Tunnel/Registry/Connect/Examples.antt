-- ===== src/Tunnel/Registry/Connect/Examples.antt =====
-- A connection of the tunnel (registry.go) in a world with another one.
use gotu.Base.{pos, ℕ, ◌≡◌, refl, ◌∙◌, true, false, [], ◌∷◌, ext}
use gotu.Wire.{Bytes}
use gotu.Net.Write
use gotu.Net.Write.{Channel}
use gotu.Net.Write.Cases.{send_msg-closed, send_msg-refused}
use gotu.Net.Client.{SocketOps, failed, opened}
use gotu.Net.Client.Calls.{is_nil}
use gotu.Tunnel.Snmp.{new_tun_snmp_base}
use gotu.Tunnel.Registry.{Registry, mode_client, on_msg}
use gotu.Tunnel.Registry.Connect.{World, on_client_msg, on_connect}
use gotu.Tunnel.Registry.Connect.Life.{life, Restores, life-Restores, on_disconnect-on_connect}

abbrev channel_ops : SocketOps (Channel Bytes)
channel_ops = record {
  close = λ c. record c { closed = true };
  send_msg = Write.send_msg 2000;
  is_closed = λ c. c.closed;
  close-is_closed = λ c. refl;
  send_msg-is_closed = λ pick msg c h. send_msg-closed 2000 pick msg c ∙ h;
  send_msg-refused = send_msg-refused 2000;
}

abbrev client_end : Registry
client_end = record {
  proxy_addr = "127.0.0.1:9000";
  mode = mode_client;
  header = true;
  in_loss = 0;
  in_latency = 0;
  out_loss = 0;
  out_latency = 0;
}

abbrev world : World ℕ
world = record {
  actors = ("latencyActor-b:2", 0) ∷ [];
  tun = record {
    total = new_tun_snmp_base;
    snmps = ("b:2", 0) ∷ [];
    heap = record { id = "b:2"; base = new_tun_snmp_base } ∷ [];
  };
}

-- The dial of the UDP client fails.
on_disconnect-on_connect_example :
    (is_nil (life channel_ops client_end "latencyActor-a:1" "a:1" 7 (failed (ext 1)) world) ≡ true)
    × (is_nil (
          on_client_msg client_end
            (pos 5)
            new_tun_snmp_base
            (on_connect {T = Channel Bytes} client_end "latencyActor-a:1" "a:1" 7
              (failed (ext 1))
              world).1
            (1 ∷ []))
        ≡ false)
unfolding on_msg
on_disconnect-on_connect_example =
    on_disconnect-on_connect channel_ops client_end "latencyActor-a:1" "a:1" 7 (failed (ext 1))
      world (pos 5) new_tun_snmp_base (1 ∷ [])

life-Restores_example : Restores world (
    life channel_ops client_end "latencyActor-a:1" "a:1" 7
      (opened (record { queue = []; closed = false }))
      world)
life-Restores_example =
    life-Restores channel_ops client_end "latencyActor-a:1" "a:1" 7
      (record { queue = []; closed = false }) world refl refl
