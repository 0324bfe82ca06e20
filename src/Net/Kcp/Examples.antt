-- ===== src/Net/Kcp/Examples.antt =====
-- The built-in protocol of KCP connections: runs, and the theorems at concrete schedules.
use gotu.Base.{pos, some, mux_init_timeout, ◌≡◌, refl, true, false, none, List, [], ◌∷◌}
use gotu.Net.Kcp.Protocol.Waits.{init_wait, Tells, serial_waits_tell}
use gotu.Net.Kcp.Mux.{kms_code}
use gotu.Net.Kcp.Protocol.{
  Action, client_init, server_init, client_close, server_close, deliver_up, deliver_down, start,
  run,
}
use gotu.Net.Kcp.Protocol.Stages.{phase, both_fin, system_of}
use gotu.Net.Kcp.Protocol.Split.{
  Step, begin, client_sends, client_replies, server_sends, server_replies, split_step, split_run,
  split_start,
}
use gotu.Net.Kcp.Protocol.Serial.{IsSerial, serial_never_rejects}
use gotu.Net.Kcp.Protocol.Safety.{NoError, IsOpen, rounds, handshake_completes}

abbrev handshake : List Action
handshake = client_init ∷ deliver_up ∷ server_init ∷ deliver_down ∷ deliver_up ∷ []

-- Both ends close before either hears of the other.
abbrev crossing : List Action
crossing = client_init ∷ deliver_up ∷ deliver_down ∷ deliver_up ∷ client_close ∷ server_close ∷ []

crossing_stage : run start crossing ≡ system_of (phase both_fin false true true)
unfolding run start
crossing_stage = refl

-- The last message of the handshake is under way: the client's `init` returns, and the server's runs
-- into its timer.
halfway_waits :
    ((init_wait false (run start (client_init ∷ deliver_up ∷ deliver_down ∷ [])).client).1 ≡ none)
    × ((init_wait false (run start (client_init ∷ deliver_up ∷ deliver_down ∷ [])).server).1
        ≡ some (mux_init_timeout (pos 0)))
unfolding run start init_wait kms_code
halfway_waits = (refl, refl)

-- The handshake, each message with its send.
abbrev opening : List Step
opening =
    begin client_init
    ∷ client_sends
    ∷ begin deliver_up
    ∷ server_replies
    ∷ begin deliver_down
    ∷ client_replies
    ∷ begin deliver_up
    ∷ []

opening-IsSerial : IsSerial split_start opening
unfolding split_start start split_step
opening-IsSerial =
    ((refl, refl), (refl, ((refl, refl), (tt, ((refl, refl), (tt, ((refl, refl), tt)))))))

-- Both ends close then, and their messages cross.
abbrev both_close : List Step
both_close =
    begin client_init
    ∷ client_sends
    ∷ begin deliver_up
    ∷ server_replies
    ∷ begin deliver_down
    ∷ client_replies
    ∷ begin deliver_up
    ∷ begin client_close
    ∷ begin server_close
    ∷ server_sends
    ∷ client_sends
    ∷ []

both_close-IsSerial : IsSerial split_start both_close
unfolding split_start start split_step
both_close-IsSerial = (
  (refl, refl),
  (
    refl,
    (
      (refl, refl),
      (
        tt,
        ((refl, refl), (tt, ((refl, refl), ((refl, refl), ((refl, refl), (refl, (refl, tt))))))),
      ),
    ),
  ),
)

serial_never_rejects_example : NoError (split_run split_start both_close).ends
serial_never_rejects_example = serial_never_rejects both_close both_close-IsSerial

serial_waits_tell_example :
    let s = (split_run split_start opening).ends in
    Tells false s.client s.client_end × Tells false s.server s.server_end
serial_waits_tell_example = serial_waits_tell false opening opening-IsSerial

handshake_completes_example : IsOpen (run (run start (client_init ∷ [])) rounds)
unfolding run start
handshake_completes_example = handshake_completes (client_init ∷ []) refl refl refl
