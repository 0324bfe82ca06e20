-- ===== src/Net/Client/Examples.antt =====
-- Clients (tcp_client.go, kcp_client.go) over a channel as their socket.
use gotu.Base.{◌≡◌, refl, ◌∙◌, true, false, some, List, [], ◌∷◌, ext}
use gotu.Wire.{Bytes}
use gotu.Net.Write
use gotu.Net.Write.{Channel}
use gotu.Net.Write.Cases.{send_msg-closed, send_msg-refused}
use gotu.Net.Client.{kcp, SocketOps, unmade, Call, reconnect_to, send, calls}
use gotu.Net.Client.Calls
use gotu.Net.Client.Calls.{is_nil, calls-hits_nil, calls-answered}

abbrev channel_ops : SocketOps (Channel Bytes)
channel_ops = record {
  close = λ c. record c { closed = true };
  send_msg = Write.send_msg 200;
  is_closed = λ c. c.closed;
  close-is_closed = λ c. refl;
  send_msg-is_closed = λ pick msg c h. send_msg-closed 200 pick msg c ∙ h;
  send_msg-refused = send_msg-refused 200;
}

abbrev shut_channel : Channel Bytes
shut_channel = record { queue = []; closed = true }

abbrev retries : List (Call (Channel Bytes))
retries = reconnect_to (unmade (ext 1)) ∷ send false (1 ∷ []) ∷ []

-- A KCP client panics on the first call after a handshake that failed.
calls-hits_nil_example :
    is_nil (calls channel_ops kcp (record { sock = some shut_channel }) retries) ≡ true
unfolding Calls.hits_nil
calls-hits_nil_example =
    calls-hits_nil channel_ops kcp (record { sock = some shut_channel }) retries
