-- ===== src/Net/Kcp/Messages/Examples.antt =====
-- A message over an established KCP connection, in two reads.
use gotu.Base.{List, ◌≡◌, refl, Option, none, [], ◌∷◌, ◌++◌, pos, Error, arith, true}
use gotu.Wire.{Bytes, put_int32}
use gotu.Net.Stream.{Reader, read_loop}
use gotu.Net.Stream.Chunks.{loop_view, chunks}
use gotu.Net.Stream.Frames.{deliver, nothing-IsPartial}
use gotu.Net.Handler.{OnHandlerOnce}
use gotu.Net.Kcp.ReadLoop.{kcp_read_loop, open_reads, unlogged}
use gotu.Net.Kcp.Mux.{established, Mux, new_kcp_mux, Conn, mux_on_msg, mux_pack_msg}
use gotu.Net.Kcp.Messages.{mux_frame, hand_on, mux_messages_arrive}
use gotu.Msg.{Header, parse_msg_warp, PackMsgArgs, pack_msg}
use gotu.Msg.RoundTrip.{IsPackable}

abbrev keep : Bytes → Header → Bytes → Bytes × Option Error
keep s h payload = (s ++ payload, none)

abbrev note : PackMsgArgs
note = record { seq = pos 1; cmd = pos 1; flag = pos 0; payload = 5 ∷ [] }

abbrev ready : Mux
ready = record (new_kcp_mux true true) { state = established }

abbrev idle : Reader (Conn Bytes)
idle = record {
  pool = record { cache = []; returned = [] };
  read_caches = [];
  state = record { mux = ready; app = []; sent = [] };
}

abbrev two_reads : List (Bytes × Bytes)
two_reads =
    ([], 0 ∷ 1 ∷ 0 ∷ []) ∷ ([], 0 ∷ 0 ∷ 1 ∷ 0 ∷ 0 ∷ 0 ∷ 0 ∷ 0 ∷ 0 ∷ 0 ∷ 1 ∷ 0 ∷ 0 ∷ 0 ∷ 5 ∷ []) ∷ []

abbrev on_msg : OnHandlerOnce (Conn Bytes)
on_msg = mux_on_msg (parse_msg_warp keep) []

mux_messages_arrive_example :
    (kcp_read_loop on_msg idle (open_reads two_reads)
      ≡ unlogged (read_loop on_msg idle (chunks two_reads)))
    × (loop_view (read_loop on_msg idle (chunks two_reads))
        ≡ deliver (hand_on keep) [] idle.state (note ∷ []))
unfolding new_kcp_mux pack_msg put_int32 mux_pack_msg
mux_messages_arrive_example =
    mux_messages_arrive keep [] ready refl idle two_reads (note ∷ []) [] (refl, refl) refl
      (omega arith, tt)
      (nothing-IsPartial (mux_frame ready) IsPackable note (omega arith) (omega arith)) refl
