-- ===== src/Net/Udp/Examples.antt =====
-- A UDP server with two peers (udp_server.go).
use gotu.Base.{◌≡◌, refl, true, false, none, List, [], ◌∷◌, ◌++◌}
use gotu.Wire.{Bytes}
use gotu.Net.Handler.{OnHandlerOnce, handled}
use gotu.Net.Udp.{
  UdpServer, Event, datagram, check, handler_turn, shut_expired, delete_expired, serve, get_session,
}
use gotu.Net.Session.{on_event}
use gotu.Net.Write.{send_msg}
use gotu.Net.Session.Calm.{IsCalm}
use gotu.Net.Udp.Peers.{Serves, peer_events, own, serve-Serves}
use Prim.Native.String.{String}

abbrev connect : String → Bytes
connect id = []

abbrev keep : OnHandlerOnce Bytes
keep s msg = handled (s ++ msg) 0 none

abbrev started : UdpServer Bytes
started = record { sock = true; sessions = [] }

keep-IsCalm : IsCalm keep
keep-IsCalm s msg e = cc

-- A list of the check loop has the second peer, of whom a datagram comes before it is closed.
abbrev events : List Event
events =
    datagram "a:1" true (7 ∷ []) 10
    ∷ datagram "b:2" true (9 ∷ []) 11
    ∷ handler_turn "a:1" false
    ∷ check 20 40
    ∷ datagram "b:2" true (8 ∷ []) 40
    ∷ shut_expired "b:2"
    ∷ handler_turn "b:2" false
    ∷ handler_turn "b:2" true
    ∷ delete_expired "b:2"
    ∷ []

serve-Serves_example :
    Serves connect keep "b:2"
      (peer_events connect keep [] none (own connect keep "b:2" events))
      (serve connect keep started events)
unfolding get_session
serve-Serves_example = serve-Serves connect keep keep-IsCalm "b:2" started events refl tt

-- The peer's session is gone, and the datagram with it.
second_gone : peer_events connect keep [] none (own connect keep "b:2" events) ≡ none
unfolding peer_events own on_event send_msg
second_gone = refl
