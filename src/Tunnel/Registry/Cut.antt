-- ===== src/Tunnel/Registry/Cut.antt =====
-- Datagrams through both ends of a tunnel, as the sockets of the two proxies read them: registry.go,
-- codec.go and pkg/xnet/udp_socket.go.
use gotu.Base.{
  ℕ, zero, suc, ◌≤◌, ◌≡◌, refl, ap, ◌∙◌, true, ℤ, IsInt64, List, [], ◌∷◌, length, take, arith,
}
use gotu.Wire.{Bytes, ok, put_int64}
use gotu.Common.{◌-64◌}
use gotu.Net.Udp.ReadLoop.{read_from_udp}
use gotu.Tunnel.{pack}
use gotu.Tunnel.Snmp.{TunSnmpBase, recv_client, recv_proxy, add_latency}
use gotu.Tunnel.Registry.{mode_client, mode_server, Registry, on_msg, on_proxy_msg}
use gotu.Tunnel.Registry.Tunnels.{unpack-pack}

-- What the buffer of the second socket leaves for the payload behind the header.
abbrev pub room : ℕ
room = 1016

take-take {ℓ} : {A : Type ℓ} (a b : ℕ) (xs : List A) → a ≤ b → take a (take b xs) ≡ take a xs
take-take zero b xs h = refl
take-take (suc a) zero xs h = absurd (omega (arith, h))
take-take (suc a) (suc b) [] h = refl
take-take (suc a) (suc b) (x ∷ xs) h = ap (λ t. x ∷ t) (take-take a b xs (omega (arith, h)))

take_all {ℓ} : {A : Type ℓ} (a : ℕ) (xs : List A) → length xs ≤ a → take a xs ≡ xs
take_all zero [] h = refl
take_all zero (x ∷ xs) h = absurd (omega (arith, h))
take_all (suc a) [] h = refl
take_all (suc a) (x ∷ xs) h = ap (λ t. x ∷ t) (take_all a xs (omega (arith, h)))

cut-pack : (t : ℤ) (msg : Bytes) → read_from_udp (pack t msg) ≡ pack t (take room msg)
unfolding pack put_int64
cut-pack t msg = refl

-- What comes out of the tunnel.
abbrev pub through : Bytes → Bytes
through bytes = take room bytes

second_cut :
    (t : ℤ) (bytes : Bytes) → read_from_udp (pack t (read_from_udp bytes)) ≡ pack t (through bytes)
second_cut t bytes =
    cut-pack t (read_from_udp bytes) ∙ ap (pack t) (take-take room 1024 bytes (omega arith))

module _ (c s : Registry) (client_mode : c.mode ≡ mode_client) (server_mode : s.mode ≡ mode_server)
    (client_header : c.header ≡ true) (server_header : s.header ≡ true) (t u : ℤ) (fits : IsInt64 t)
    (snmp_c snmp_s : TunSnmpBase) (bytes : Bytes) where
  server_unpacks :
      (out : Bytes)
      → on_msg s u snmp_s (pack t out)
        ≡ (recv_client (length out) (add_latency (u -64 t) snmp_s), ok out)
  unfolding on_msg
  server_unpacks out = ground (arith, unpack-pack t u out fits)

  client_unpacks :
      (out : Bytes)
      → on_proxy_msg c u snmp_c (pack t out)
        ≡ (recv_proxy (length out) (add_latency (u -64 t) snmp_c), ok out)
  unfolding on_proxy_msg
  client_unpacks out = ground (arith, unpack-pack t u out fits)

  -- With headers, a datagram that enters a tunnel is passed on with the header in front, and what the
  -- far proxy's socket reads of that and passes on are the first 1016 bytes of it, in either
  -- direction: a datagram of up to 1016 bytes comes through whole, and of a longer one, also of one
  -- that the first socket reads whole, the end is lost without an error. The near proxy counts the
  -- bytes that it read, the far one those that are left, and the delay.
  pub tunnel_cuts :
      ((wire : Bytes) × (on_msg c t snmp_c (read_from_udp bytes)
          ≡ (recv_client (length (read_from_udp bytes)) snmp_c, ok wire))
        × (on_msg s u snmp_s (read_from_udp wire) ≡ (
          recv_client (length (through bytes)) (add_latency (u -64 t) snmp_s),
          ok (through bytes),
        )))
      × ((wire : Bytes) × (on_proxy_msg s t snmp_s (read_from_udp bytes)
            ≡ (recv_proxy (length (read_from_udp bytes)) snmp_s, ok wire))
          × (on_proxy_msg c u snmp_c (read_from_udp wire) ≡ (
            recv_proxy (length (through bytes)) (add_latency (u -64 t) snmp_c),
            ok (through bytes),
          )))
      × (length bytes ≤ room → through bytes ≡ bytes)
  unfolding on_msg on_proxy_msg
  tunnel_cuts =
      let far = second_cut t bytes in
      (
        (
          pack t (read_from_udp bytes),
          ground arith,
          ap (on_msg s u snmp_s) far ∙ server_unpacks (through bytes),
        ),
        (
          pack t (read_from_udp bytes),
          ground arith,
          ap (on_proxy_msg c u snmp_c) far ∙ client_unpacks (through bytes),
        ),
        take_all room bytes,
      )
