-- ===== src/Cmd/Examples.antt =====
-- Two rounds of the client, with reads that cut the bytes elsewhere.
use gotu.Base.{
  pos, ℕ, take, drop, ◌+◌, ◌*◌, ◌+ℤ◌, ◌-ℤ◌, ◌≡◌, refl, true, List, [], ◌∷◌, concat, map, arith, ap,
  sym, ◌∙◌, append-nil, ℤ, Option, some,
}
use gotu.Wire.{put_int32, Bytes, put_int64, get_int64}
use gotu.Wire.Laws.{get_int64-put_int64}
use gotu.Net.Stream.{Reader, kept, read_loop}
use gotu.Net.Stream.Chunks.{loop_view, chunks}
use gotu.Net.Write.{send_msg}
use gotu.Net.Write.Coalesce.{Writer, new_writer}
use gotu.Msg.{parse_msg_warp, pack_msg}
use gotu.Cmd.{tcp_svr_on_msg, TcpClientState, new_tcp_client_state, tcp_cli_on_msg, client_rounds}
use gotu.Cmd.Echoes.{sends, writer_send, writer_send-IsSocket}
use gotu.Cmd.Rounds.{rounds_counted}
use gotu.Cmd.Counts.{counted, IsDecimal}

-- Eight bytes stand for the digits.
abbrev sprintf : ℤ → Bytes
sprintf n = put_int64 n

abbrev atoi : Bytes → Option ℤ
atoi bs = some (get_int64 bs)

eight-IsDecimal : IsDecimal sprintf atoi
unfolding put_int64
eight-IsDecimal = record {
  back =
      λ n h. ap some (ap get_int64 (sym (append-nil (put_int64 n))) ∙ get_int64-put_int64 n [] h);
  short = λ n h. omega arith;
}

abbrev times : List ℤ
times = pos 100 ∷ pos 200 ∷ []

abbrev clock : ℕ → ℤ
clock i = pos (150 + 100 * i)

-- What each end's socket accepts, in two reads.
abbrev requests : List (Bytes × Bytes)
requests =
    let wire = concat (client_rounds (writer_send true) sprintf new_writer times).accepted in
    ([], take 20 wire) ∷ ([], drop 20 wire) ∷ []

abbrev answers : List (Bytes × Bytes)
answers =
    let wire = concat (sends (writer_send true) new_writer (map sprintf times)).accepted in
    ([], take 3 wire) ∷ ([], drop 3 wire) ∷ []

abbrev listening : Reader Writer
listening = record {
  pool = record { cache = []; returned = [] };
  read_caches = [];
  state = new_writer;
}

abbrev waiting_for : Reader TcpClientState
waiting_for = record {
  pool = record { cache = []; returned = [] };
  read_caches = [];
  state = new_tcp_client_state;
}

two_counted :
    counted clock new_tcp_client_state times ≡ record { delay = pos 100; count = 2; ticks = 2 }
unfolding ◌+ℤ◌ ◌-ℤ◌
two_counted = refl

rounds_counted_example :
    (loop_view
        (read_loop (parse_msg_warp (tcp_svr_on_msg (writer_send true))) listening (chunks requests))
      ≡ kept (sends (writer_send true) new_writer (map sprintf times), []))
    × (loop_view
          (read_loop (parse_msg_warp (tcp_cli_on_msg atoi clock)) waiting_for (chunks answers))
        ≡ kept (counted clock new_tcp_client_state times, []))
unfolding client_rounds send_msg pack_msg put_int32 put_int64 ◌+ℤ◌ ◌-ℤ◌
rounds_counted_example =
    rounds_counted (writer_send-IsSocket true) eight-IsDecimal clock times new_writer listening
      waiting_for requests answers (omega arith) refl refl refl refl refl refl refl (omega arith)
