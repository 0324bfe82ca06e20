-- ===== src/Net/Udp/Client/Ops.antt =====
-- The builtInUDP of udp_client.go as the socket of its UDPClient.
use gotu.Base.{◌≡◌, ◌∙◌, subst, Bool, true, Option, some, List, map, Error}
use gotu.Wire.{Bytes}
use gotu.Net.Handler.{OnHandlerOnce}
use gotu.Net.Write.Cases.{send_msg-closed, send_msg-refused}
use gotu.Net.Client.{SocketOps, udp, Call, calls}
use gotu.Net.Client.Calls.{answered, all_stay, calls-answered}
use gotu.Net.Udp.Client.{BuiltInUdp, fired, send, react, send_msg, close, udp_chan_limit}
use gotu.Net.Udp.Client.Close.{IsBuilt, react-IsBuilt, close-IsBuilt, close_ends, IsClosing}

module _ {S : Type 0} (on_msg : OnHandlerOnce S) (prefers : List Bool) where
  -- A client in order.
  pub record Built : Type 0 where
    pub udp : BuiltInUdp S
    pub holds : IsBuilt on_msg udp

  abbrev pub close_built : Built → Built
  close_built t = record {
    udp = close on_msg prefers t.udp;
    holds = close-IsBuilt on_msg prefers t.udp t.holds;
  }

  unfoldable pub send_built : Bool → Bytes → Built → Built × Option Error
  unfolding react
  send_built pick msg t = (
    record {
      udp = (send_msg on_msg t.udp pick msg).0;
      holds = react-IsBuilt on_msg t.udp (send pick msg) t.holds;
    },
    (send_msg on_msg t.udp pick msg).1,
  )

  pub close_built_closed : (t : Built) → (close_built t).udp.sock.closed ≡ true
  close_built_closed t =
      let (ended, shut_session, closed) =
        subst (IsClosing on_msg (close on_msg prefers t.udp))
          (close_ends on_msg prefers t.udp t.holds)
          (close-IsBuilt on_msg prefers t.udp t.holds).0 in
      closed

  -- The calls of a UDPClient on its builtInUDP are as a client of sockets relies on.
  unfoldable pub udp_ops : SocketOps Built
  unfolding send_built send_msg
  udp_ops = record {
    close = close_built;
    send_msg = send_built;
    is_closed = λ t. t.udp.sock.closed;
    close-is_closed = close_built_closed;
    send_msg-is_closed = λ pick msg t h. send_msg-closed udp_chan_limit pick msg t.udp.sock ∙ h;
    send_msg-refused = λ msg t h. send_msg-refused udp_chan_limit msg t.udp.sock h;
  }

  -- After its Close, or the close of its check loop, a UDP client answers each send whose select takes
  -- the close and each Reconnect that fails with an error, in whatever number they and further calls
  -- of Close come, without a panic.
  pub udp_client-answered :
      (t : Built) (cs : List (Call Built))
      → t.udp.once ≡ fired
      → all_stay udp cs ≡ true
      → (t' : Built) × (t'.udp.sock.closed ≡ true)
        × (calls udp_ops udp (record { sock = some t }) cs
            ≡ some (record { sock = some t' }, map answered cs))
  unfolding udp_ops
  udp_client-answered t cs h s =
      let (ended, shut_session, closed) = subst (IsClosing on_msg t.udp) h t.holds.0 in
      calls-answered udp_ops udp t cs closed s
