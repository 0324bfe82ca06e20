-- ===== src/Registry/Examples.antt =====
-- The echo service's theorems on concrete messages, with a socket that keeps what is sent.
use gotu.Base.{◌≡◌, arith, Option, none, List, [], ◌∷◌, ◌++◌, pos, Error}
use gotu.Wire.{Bytes}
use gotu.Net.Handler.{handled}
use gotu.Msg.{pack_msg, parse_msg_warp}
use gotu.Registry.{on_msg, marshal, cmd_echo, echo_handlers}
use gotu.Registry.Echo.{echo_served}

abbrev keep : List Bytes → Bytes → List Bytes × Option Error
keep sent msg = (sent ++ (msg ∷ []), none)

echo_served_example :
    parse_msg_warp (on_msg (echo_handlers keep)) [] (
      pack_msg (record { seq = pos 5; cmd = cmd_echo; flag = pos 0; payload = marshal (pos 42) })
      ++ (9 ∷ []))
    ≡ handled
        (pack_msg (record { seq = pos 0; cmd = cmd_echo; flag = pos 0; payload = marshal (pos 42) })
          ∷ [])
        20
        none
echo_served_example =
    echo_served keep [] (pos 5) (pos 0) (pos 42) (9 ∷ []) (omega arith, omega arith)
      (omega arith, omega arith) (omega arith, omega arith)
