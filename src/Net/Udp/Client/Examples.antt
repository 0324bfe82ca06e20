-- ===== src/Net/Udp/Client/Examples.antt =====
-- A UDP client (udp_client.go) at work, and its close.
use gotu.Base.{arith, ext, refl, true, false, none, List, [], ◌∷◌, ◌++◌}
use gotu.Wire.{Bytes}
use gotu.Net.Handler.{OnHandlerOnce, handled}
use gotu.Net.Session.{new_session}
use gotu.Net.Udp.Client
use gotu.Net.Udp.Client.{
  BuiltInUdp, unfired, fired, Event, datagram, handle, check, force, finish, new_built_in_udp,
  close,
}
use gotu.Net.Client.{Call, reconnect_to, failed, send, close_it}
use gotu.Net.Udp.Client.Ops.{Built}
use gotu.Net.Udp.Client.Close.{IsMade, reacts-IsMade}

abbrev keep : OnHandlerOnce Bytes
keep s msg = handled (s ++ msg) 0 none

abbrev talk : List Event
talk =
    datagram true (1 ∷ []) 10
    ∷ Client.send true (2 ∷ [])
    ∷ handle false
    ∷ datagram true (3 ∷ []) 12
    ∷ check 10 40
    ∷ handle true
    ∷ finish
    ∷ []

reacts-IsMade_example : IsMade keep (new_built_in_udp false [] 10) talk
reacts-IsMade_example = reacts-IsMade keep [] 10 talk

abbrev closed_client : Built keep []
closed_client = record {
  udp = record {
    session = record (new_session [] 10) {
      msg_ch = record { queue = []; closed = true };
      running = false;
    };
    sock = record { queue = []; closed = true };
    once = fired;
  };
  holds = ((refl, refl, refl), (refl, omega arith));
}

abbrev late_calls : List (Call (Built keep []))
late_calls = send false (1 ∷ []) ∷ reconnect_to (failed (ext 1)) ∷ close_it ∷ []
