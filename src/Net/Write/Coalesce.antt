-- ===== src/Net/Write/Coalesce.antt =====
-- The write loops of tcp_socket.go and kcp_socket.go: they gather all messages that wait and write
-- them as one piece. Calls of SendMsg, the close and the loop's own steps come in any order; the
-- choices of `select` and the answers of the connection's Write are part of the steps.
pub mod Order
pub mod Flush
pub mod Losses
pub mod Accepted
use gotu.Base.{
  ℕ, Bool, true, false, Option, none, some, List, [], ◌∷◌, ◌++◌, length, take, drop, leb,
  if◌then◌else◌, Error,
}
use gotu.Wire.{Bytes}
use gotu.Net.Handler.{write_chan_limit}
use gotu.Net.Write.{Channel, send_msg}

-- A TCP socket ends its loop on an empty piece, a KCP socket does not.
pub data Kind : Type 0 where
  tcp kcp : Kind

-- Where the loop stands: in the blocking select, in the non-blocking one with what it gathered, in
-- `write` with what is left to write, or past the loop, with what a failed Write left unwritten. The
-- Booleans are `isClosed`.
pub data Phase : Type 0 where
  waiting : Phase
  collecting : Bytes → Bool → Phase
  writing : Bytes → Bool → Phase
  ended : Bytes → Phase

-- `wire` is what the connection took; `accepted` holds the messages for which SendMsg returned nil.
pub record Writer : Type 0 where
  pub chan : Channel Bytes
  pub phase : Phase
  pub wire : Bytes
  pub accepted : List Bytes

abbrev pub new_writer : Writer
new_writer = record {
  chan = record { queue = []; closed = false };
  phase = waiting;
  wire = [];
  accepted = [];
}

-- `receive` is one select of the loop, which prefers the close channel where the flag says so and
-- both are ready. `wrote n failed` is the return of Write, and a failure also stands for one of
-- SetWriteDeadline.
pub data Action : Type 0 where
  send : Bool → Bytes → Action
  shut : Action
  receive : Bool → Action
  wrote : ℕ → Bool → Action

abbrev pub sent : Writer → Bytes → Channel Bytes × Option Error → Writer
sent w m (c, none) = record w { chan = c; accepted = w.accepted ++ (m ∷ []) }
sent w m (c, some e) = w

-- The end of `waitMsg`, and the test for an empty piece.
abbrev pub gathered : Kind → Bytes → Bool → Phase
gathered tcp [] closed = ended []
gathered tcp (b ∷ msg) closed = writing (b ∷ msg) closed
gathered kcp msg closed = writing msg closed

abbrev pub pop : Writer → List Bytes → Phase → Writer
pop w queue phase = record w { chan = record w.chan { queue = queue }; phase = phase }

receive_in : Kind → Bool → Writer → Phase → List Bytes → Writer
receive_in kind prefer w waiting [] =
    if w.chan.closed then record w { phase = collecting [] true } else w
receive_in kind prefer w waiting (m ∷ queue) =
    if w.chan.closed
    then (if prefer
        then record w { phase = collecting [] true }
        else pop w queue (collecting m false))
    else pop w queue (collecting m false)
receive_in kind prefer w (collecting msg closed) [] = record w { phase = gathered kind msg closed }
receive_in kind prefer w (collecting msg closed) (m ∷ queue) =
    pop w queue (collecting (msg ++ m) closed)
receive_in kind prefer w (writing msg closed) queue = w
receive_in kind prefer w (ended unsent) queue = w

-- After a whole `write`.
abbrev pub written : Bool → Phase
written true = ended []
written false = waiting

wrote_in : ℕ → Bool → Writer → Phase → Writer
wrote_in n true w (writing msg closed) = record w {
  wire = w.wire ++ take n msg;
  phase = ended (drop n msg);
}
wrote_in n false w (writing msg closed) =
    if leb (length msg) n
    then record w { wire = w.wire ++ msg; phase = written closed }
    else record w { wire = w.wire ++ take n msg; phase = writing (drop n msg) closed }
wrote_in n failed w waiting = w
wrote_in n failed w (collecting msg closed) = w
wrote_in n failed w (ended unsent) = w

unfoldable pub step : Kind → Writer → Action → Writer
unfolding receive_in wrote_in
step kind w (send pick m) = sent w m (send_msg write_chan_limit pick m w.chan)
step kind w shut = record w { chan = record w.chan { closed = true } }
step kind w (receive prefer) = receive_in kind prefer w w.phase w.chan.queue
step kind w (wrote n failed) = wrote_in n failed w w.phase

unfoldable pub steps : Kind → Writer → List Action → Writer
unfolding step
steps kind w [] = w
steps kind w (a ∷ actions) = steps kind (step kind w a) actions
