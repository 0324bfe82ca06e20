-- ===== src/Cmd.antt =====
-- cmd/tcp_svr and cmd/tcp_cli: the server that sends each payload back, and the client that sends the
-- time and counts the replies and their delays. SendMsg of the socket, `strconv.Atoi`, the format
-- "%d" and the clock are parameters.
pub mod Echoes
pub mod Counts
pub mod Rounds
mod Examples
use gotu.Base.{ℕ, suc, ◌+◌, ◌%◌, ◌^◌, ℤ, pos, Option, none, some, List, [], ◌∷◌, Error}
use gotu.Wire.{Bytes}
use gotu.Common.{◌+64◌, ◌-64◌}
use gotu.Msg.{Header, PackMsgArgs, pack_msg}

-- Both commands fill the payload alone.
abbrev pub only_payload : Bytes → PackMsgArgs
only_payload payload = record { seq = pos 0; cmd = pos 0; flag = pos 0; payload = payload }

-- The server's OnMsg: an error of SendMsg is logged.
unfoldable pub tcp_svr_on_msg {ℓ} :
    {Sock : Type ℓ}
    → (Sock → Bytes → Sock × Option Error)
    → Sock
    → Header
    → Bytes
    → Sock × Option Error
tcp_svr_on_msg send_msg sock h payload = ((send_msg sock (pack_msg (only_payload payload))).0, none)

-- `ticks` counts the readings of the clock.
pub record TcpClientState : Type 0 where
  pub delay : ℤ
  pub count : ℕ
  pub ticks : ℕ

abbrev pub new_tcp_client_state : TcpClientState
new_tcp_client_state = record { delay = pos 0; count = 0; ticks = 0 }

-- The client's OnMsg: an int64 sum and a uint32 count, both of which wrap.
unfoldable pub tcp_cli_on_msg :
    (Bytes → Option ℤ) → (ℕ → ℤ) → TcpClientState → Header → Bytes → TcpClientState × Option Error
tcp_cli_on_msg atoi now state h payload = elim (atoi payload) [
  | none ↦ (state, none)
  | some n ↦ (
    record {
      delay = state.delay +64 (now state.ticks -64 n);
      count = (state.count + 1) % 2 ^ 32;
      ticks = suc state.ticks;
    },
    none,
  )
]

-- The client's rounds, at the times that its clock gives: an error of SendMsg is logged.
unfoldable pub client_rounds {ℓ} :
    {Sock : Type ℓ} → (Sock → Bytes → Sock × Option Error) → (ℤ → Bytes) → Sock → List ℤ → Sock
client_rounds send_msg sprintf sock [] = sock
client_rounds send_msg sprintf sock (t ∷ ts) =
    client_rounds send_msg sprintf (send_msg sock (pack_msg (only_payload (sprintf t)))).0 ts
