-- ===== src/Net/Write/Each.antt =====
-- The write loops of udp_socket.go and websocket.go: they write each message by itself, and after the
-- close what waits is written first. `M` is a datagram with its address, or a websocket message;
-- `is_nil` is the test after the select, which no datagram meets. The close is `forceClose`, which
-- acts once; `limit` is the room of the channel, 2000 for UDP and 200 for a websocket.
pub mod Order
pub mod Flush
use gotu.Base.{ℕ, Bool, true, false, Option, none, some, List, [], ◌∷◌, ◌++◌, if◌then◌else◌, Error}
use gotu.Net.Write.{Channel, send_msg}

-- Where the loop stands: at its select, with its flag `close`; in the write of a message; or past the
-- loop, with what it took and did not write.
pub data Phase (M : Type 0) : Type 0 where
  looking : Bool → Phase M
  writing : M → Bool → Phase M
  ended : List M → Phase M

-- `wire` is what the connection took; `accepted` holds the messages for which a send returned nil.
pub record Writer (M : Type 0) : Type 0 where
  pub chan : Channel M
  pub phase : Phase M
  pub wire : List M
  pub accepted : List M

abbrev pub new_writer : {M : Type 0} → Writer M
new_writer = record {
  chan = record { queue = []; closed = false };
  phase = looking false;
  wire = [];
  accepted = [];
}

-- `receive` is one select, which prefers the close channel where the flag says so and both are ready;
-- `wrote` is the return of the write, true for an error.
pub data Action (M : Type 0) : Type 0 where
  send : Bool → M → Action M
  shut : Action M
  receive : Bool → Action M
  wrote : Bool → Action M

module _ {M : Type 0} (limit : ℕ) (is_nil : M → Bool) where
  abbrev pub sent : Writer M → M → Channel M × Option Error → Writer M
  sent w m (c, none) = record w { chan = c; accepted = w.accepted ++ (m ∷ []) }
  sent w m (c, some e) = w

  abbrev pub taken : Writer M → M → List M → Bool → Writer M
  taken w m queue closing = record w {
    chan = record w.chan { queue = queue };
    phase = if is_nil m then ended (m ∷ []) else writing m closing;
  }

  receive_in : Bool → Writer M → Phase M → List M → Writer M
  receive_in prefer w (looking false) [] =
      if w.chan.closed then record w { phase = looking true } else w
  receive_in true w (looking false) (m ∷ queue) =
      if w.chan.closed then record w { phase = looking true } else taken w m queue false
  receive_in false w (looking false) (m ∷ queue) = taken w m queue false
  receive_in prefer w (looking true) [] = record w { phase = ended [] }
  receive_in prefer w (looking true) (m ∷ queue) = taken w m queue true
  receive_in prefer w (writing m closing) queue = w
  receive_in prefer w (ended left) queue = w

  wrote_in : Bool → Writer M → Phase M → Writer M
  wrote_in true w (writing m closing) = record w { phase = ended (m ∷ []) }
  wrote_in false w (writing m closing) = record w {
    wire = w.wire ++ (m ∷ []);
    phase = looking closing;
  }
  wrote_in failed w (looking closing) = w
  wrote_in failed w (ended left) = w

  unfoldable pub step : Writer M → Action M → Writer M
  unfolding receive_in wrote_in
  step w (send pick m) = sent w m (send_msg limit pick m w.chan)
  step w shut = record w { chan = record w.chan { closed = true } }
  step w (receive prefer) = receive_in prefer w w.phase w.chan.queue
  step w (wrote failed) = wrote_in failed w w.phase

  unfoldable pub steps : Writer M → List (Action M) → Writer M
  unfolding step
  steps w [] = w
  steps w (a ∷ actions) = steps (step w a) actions
