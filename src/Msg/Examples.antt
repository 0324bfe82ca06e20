-- ===== src/Msg/Examples.antt =====
-- Messages on the wire: runs, and the theorems at concrete messages.
use gotu.Base.{
  ◌≡◌, ◌≢◌, refl, Option, none, some, [], ◌∷◌, ◌++◌, pos, negsuc, arith, Error, ext, List,
}
use gotu.Wire.{Bytes, put_int32, get_int32}
use gotu.Net.Handler.{panicked}
use gotu.Net.Buffer.{BufferPool}
use gotu.Net.Stream.{Reader, out_of_fuel, turn, read_loop}
use gotu.Net.Stream.Chunks.{loop_view, chunks, turn-ne-out_of_fuel}
use gotu.Msg.{Header, parse_msg_warp, PackMsgArgs, pack_msg, get_header}
use gotu.Msg.Parse.{parse_negative}
use gotu.Net.Stream.Frames.{deliver}
use gotu.Msg.Stream.{IsPart, hand_over, messages_arrive}

-- A handler that keeps the payloads, and fails on command 9.
abbrev keep : Bytes → Header → Bytes → Bytes × Option Error
keep s h payload = elim h.cmd [ pos n ↦ (s ++ payload, none) | negsuc n ↦ (s, some (ext n)) ]

abbrev hello : PackMsgArgs
hello = record { seq = pos 7; cmd = pos 1; flag = negsuc 0; payload = 104 ∷ 105 ∷ [] }

abbrev hello_bytes : Bytes
hello_bytes = 7 ∷ 0 ∷ 0 ∷ 0 ∷ 1 ∷ 0 ∷ 0 ∷ 0 ∷ 255 ∷ 255 ∷ 255 ∷ 255 ∷ 2 ∷ 0 ∷ 0 ∷ 0 ∷ 104 ∷ 105 ∷ []

hello_packed : pack_msg hello ≡ hello_bytes
unfolding pack_msg put_int32
hello_packed = refl

-- The length -1.
abbrev broken_bytes : Bytes
broken_bytes = 0 ∷ 0 ∷ 0 ∷ 0 ∷ 1 ∷ 0 ∷ 0 ∷ 0 ∷ 0 ∷ 0 ∷ 0 ∷ 0 ∷ 255 ∷ 255 ∷ 255 ∷ 255 ∷ 1 ∷ []

parse_negative_example : parse_msg_warp keep [] broken_bytes ≡ panicked
unfolding get_header get_int32
parse_negative_example = parse_negative keep [] broken_bytes {n = 0} (omega arith) refl

abbrev no_pool : BufferPool
no_pool = record { cache = []; returned = [] }

abbrev fresh : Reader Bytes
fresh = record { pool = no_pool; read_caches = []; state = [] }

turn-ne-out_of_fuel_example : turn (parse_msg_warp keep) fresh hello_bytes hello_bytes ≢ out_of_fuel
turn-ne-out_of_fuel_example =
    turn-ne-out_of_fuel (parse_msg_warp keep) fresh hello_bytes hello_bytes

abbrev two_reads : List (Bytes × Bytes)
two_reads =
    ([], 7 ∷ 0 ∷ 0 ∷ 0 ∷ 1 ∷ 0 ∷ 0 ∷ 0 ∷ 255 ∷ [])
    ∷ ([], 255 ∷ 255 ∷ 255 ∷ 2 ∷ 0 ∷ 0 ∷ 0 ∷ 104 ∷ 105 ∷ 7 ∷ [])
    ∷ []

seven_IsPart : IsPart (7 ∷ [])
unfolding pack_msg put_int32
seven_IsPart = record {
  message = hello;
  fits = omega arith;
  rest = 0 ∷ 0 ∷ 0 ∷ 1 ∷ 0 ∷ 0 ∷ 0 ∷ 255 ∷ 255 ∷ 255 ∷ 255 ∷ 2 ∷ 0 ∷ 0 ∷ 0 ∷ 104 ∷ 105 ∷ [];
  joined = refl;
  proper = omega arith;
}

messages_arrive_example :
    loop_view (read_loop (parse_msg_warp keep) fresh (chunks two_reads))
    ≡ deliver (hand_over keep) (7 ∷ []) [] (hello ∷ [])
unfolding pack_msg put_int32
messages_arrive_example =
    messages_arrive keep fresh two_reads (hello ∷ []) (7 ∷ []) refl (omega arith) seven_IsPart refl
