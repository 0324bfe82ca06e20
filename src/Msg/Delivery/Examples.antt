-- ===== src/Msg/Delivery/Examples.antt =====
-- Two messages over a TCP connection, with the first of them half read, and both after the close.
use gotu.Base.{
  refl, Option, none, some, [], ◌∷◌, ◌++◌, pos, negsuc, Error, ext, List, arith, true, false,
}
use gotu.Wire.{Bytes, put_int32}
use gotu.Net.Stream.{Reader}
use gotu.Net.Write.{send_msg}
use gotu.Net.Write.Coalesce.{tcp, new_writer, Action, send, shut, receive, wrote, steps}
use gotu.Net.Write.Coalesce.Flush.{drive}
use gotu.Net.Delivery.{Received, ReceivedAll}
use gotu.Msg.{Header, PackMsgArgs, pack_msg}
use gotu.Msg.Stream.{parse_msg_warp-IsFramed}
use gotu.Msg.Delivery.{messages_delivered, flushed_messages_delivered}

abbrev keep : Bytes → Header → Bytes → Bytes × Option Error
keep s h payload = elim h.cmd [ pos n ↦ (s ++ payload, none) | negsuc n ↦ (s, some (ext n)) ]

abbrev note : PackMsgArgs
note = record { seq = pos 1; cmd = pos 1; flag = pos 0; payload = 5 ∷ 6 ∷ [] }

abbrev fresh : Reader Bytes
fresh = record { pool = record { cache = []; returned = [] }; read_caches = []; state = [] }

-- One message is written, the second one waits.
abbrev halfway : List Action
halfway =
    send true (pack_msg note)
    ∷ receive false
    ∷ receive false
    ∷ wrote 18 false
    ∷ send true (pack_msg note)
    ∷ []

abbrev first_nine : Bytes
first_nine = 1 ∷ 0 ∷ 0 ∷ 0 ∷ 1 ∷ 0 ∷ 0 ∷ 0 ∷ 0 ∷ []

abbrev next_nine : Bytes
next_nine = 0 ∷ 0 ∷ 0 ∷ 2 ∷ 0 ∷ 0 ∷ 0 ∷ 5 ∷ 6 ∷ []

messages_delivered_example :
    Received
      (parse_msg_warp-IsFramed keep)
      (steps tcp new_writer halfway).accepted
      fresh
      (([], first_nine) ∷ [])
unfolding steps send_msg pack_msg put_int32
messages_delivered_example =
    messages_delivered keep halfway fresh (([], first_nine) ∷ []) next_nine
      ((note, omega arith, refl), (tt, (tt, (tt, ((note, omega arith, refl), tt))))) refl refl

flushed_messages_delivered_example :
    ReceivedAll
      (parse_msg_warp-IsFramed keep)
      (steps tcp new_writer (halfway ++ (shut ∷ []))).accepted
      fresh
      (([], first_nine) ∷ ([], next_nine ++ first_nine) ∷ ([], next_nine) ∷ [])
unfolding steps send_msg pack_msg put_int32 drive
flushed_messages_delivered_example =
    flushed_messages_delivered keep false 10 (halfway ++ (shut ∷ [])) fresh
      (([], first_nine) ∷ ([], next_nine ++ first_nine) ∷ ([], next_nine) ∷ [])
      ((note, omega arith, refl), (tt, (tt, (tt, ((note, omega arith, refl), (tt, tt)))))) refl tt
      (omega arith) refl refl
