-- ===== src/Msg/Delivery.antt =====
-- Messages of PackMsg over a TCP connection, from SendMsg at one end to ParseMsgWarp at the other.
mod Examples
use gotu.Base.{ℕ, ◌≤◌, ◌≡◌, Bool, true, Option, List, [], ◌++◌, All, Error}
use gotu.Wire.{Bytes}
use gotu.Net.Stream.{Reader}
use gotu.Net.Stream.Chunks.{payloads}
use gotu.Net.Write.Coalesce.{tcp, new_writer, Action, steps}
use gotu.Net.Write.Coalesce.Flush.{drive, steps_left, IsLive}
use gotu.Net.Write.Coalesce.Accepted.{Sends}
use gotu.Net.Delivery.{IsFrame, Received, ReceivedAll, delivery, flushed_delivery}
use gotu.Msg.{Header, pack_msg}
use gotu.Msg.RoundTrip.{IsPackable}
use gotu.Msg.Stream.{nothing-IsPart, parse_msg_warp-IsFramed}

-- Every SendMsg is given one message that PackMsg made.
abbrev pub SendsMessages : List Action → Type 0
SendsMessages actions = All (Sends (IsFrame pack_msg IsPackable)) actions

module _ {ℓ} {S : Type ℓ} (fn : S → Header → Bytes → S × Option Error) where
  -- Where each SendMsg is given one message of PackMsg and the other end begins with an empty cache: at
  -- any time, whatever the order of sends, close and loop steps at the one end, whatever Write answers
  -- there, and however the reads at the other end cut those of the written bytes that have come, the
  -- handler was given the first of the messages for which SendMsg returned nil, each whole, once and in
  -- order, up to its first error, and no more bytes wait than a part of the next message.
  pub messages_delivered :
      (actions : List Action) (r : Reader S) (cs : List (Bytes × Bytes)) (unread : Bytes)
      → SendsMessages actions
      → r.read_caches ≡ []
      → payloads cs ++ unread ≡ (steps tcp new_writer actions).wire
      → Received (parse_msg_warp-IsFramed fn) (steps tcp new_writer actions).accepted r cs
  messages_delivered actions r cs unread h fresh same =
      delivery (parse_msg_warp-IsFramed fn) tcp actions r cs unread h tt fresh nothing-IsPart same

  -- Where each SendMsg is given one message of PackMsg and the other end begins with an empty cache: the
  -- socket is closed while its loop is still to look at the channel, or with nothing in it, and Write
  -- takes what it is given. Once the loop has run the steps that are counted and the other end has read
  -- what was written, the handler there was given all messages for which SendMsg returned nil, each
  -- whole, once and in order, up to its first error, and no byte waits.
  pub flushed_messages_delivered :
      (prefer : Bool) (n : ℕ) (actions : List Action) (r : Reader S) (cs : List (Bytes × Bytes))
      → SendsMessages actions
      → (steps tcp new_writer actions).chan.closed ≡ true
      → IsLive (steps tcp new_writer actions).phase (steps tcp new_writer actions).chan.queue
      → steps_left (steps tcp new_writer actions) ≤ n
      → r.read_caches ≡ []
      → payloads cs ≡ (drive n tcp prefer (steps tcp new_writer actions)).wire
      → ReceivedAll (parse_msg_warp-IsFramed fn) (steps tcp new_writer actions).accepted r cs
  flushed_messages_delivered prefer n actions r cs h c live k fresh same =
      flushed_delivery (parse_msg_warp-IsFramed fn) tcp prefer n actions r cs h c live k tt fresh
        nothing-IsPart same
