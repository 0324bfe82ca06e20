-- ===== src/Net/Write/Examples.antt =====
-- Writers at work, and the theorems on concrete steps.
use gotu.Base.{refl, arith, true, false, List, [], ◌∷◌, ℕ, Bool, ◌%◌, ◌==◌}
use gotu.Net.Write.{send_msg}
use gotu.Net.Write.Each
use gotu.Net.Write.Each.Order.{IsFifo, steps-IsFifo}
use gotu.Net.Write.Each.Flush
use gotu.Net.Write.Each.Flush.{IsDelivered, drive-IsDelivered}
use gotu.Net.Write.Coalesce.{
  tcp, writing, Writer, new_writer, Action, send, shut, receive, wrote, steps,
}
use gotu.Net.Write.Coalesce.Order.{IsOrdered, steps-IsOrdered}
use gotu.Net.Write.Coalesce.Flush.{drive, IsFlushed, drive-IsFlushed}

-- Two messages, of which the first is half written when the second comes, and the close.
abbrev busy : List Action
busy =
    send true (1 ∷ 2 ∷ [])
    ∷ receive false
    ∷ receive false
    ∷ wrote 1 false
    ∷ send true (3 ∷ [])
    ∷ shut
    ∷ []

steps-IsOrdered_example : IsOrdered (steps tcp new_writer busy)
steps-IsOrdered_example = steps-IsOrdered tcp busy

drive-IsFlushed_example : IsFlushed (drive 20 tcp false (steps tcp new_writer busy))
unfolding steps send_msg
drive-IsFlushed_example = drive-IsFlushed 20 tcp false busy refl tt (omega arith)

-- The last piece of a closed socket is being written.
abbrev closing_down : Writer
closing_down = record {
  chan = record { queue = []; closed = true };
  phase = writing (1 ∷ []) true;
  wire = [];
  accepted = (1 ∷ []) ∷ [];
}

-- Two datagrams of a UDP socket, the close before the first is written.
abbrev datagrams : List (Each.Action ℕ)
datagrams =
    Each.send true 1 ∷ Each.receive false ∷ Each.send true 2 ∷ Each.shut ∷ Each.wrote false ∷ []

abbrev never_nil : ℕ → Bool
never_nil m = false

steps-IsFifo_example : IsFifo 2000 never_nil (Each.steps 2000 never_nil Each.new_writer datagrams)
steps-IsFifo_example = steps-IsFifo 2000 never_nil datagrams

-- Every other select prefers the close.
abbrev now_and_then : ℕ → Bool
now_and_then n = n % 2 == 0

drive-IsDelivered_example : IsDelivered (
    Flush.drive 2000 never_nil 10 now_and_then
      (Each.steps 2000 never_nil Each.new_writer datagrams))
unfolding Each.steps send_msg
drive-IsDelivered_example =
    drive-IsDelivered 2000 never_nil 10 now_and_then datagrams refl refl (refl, tt) (omega arith)
