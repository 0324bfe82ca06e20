-- ===== src/Latency.antt =====
-- pkg/xlatency/latency.go: the actor that delays and loses datagrams. Times are milliseconds since
-- 1970, far below 2^63; the sums of delays are the 64 bits that the source divides as uint64. The
-- random source enters as a number `r`: `rand.Int31n(n)` is `r % n`. What is handed to the two
-- callbacks is the list `Sent`; logging and the table are left out.
pub mod Tick
pub mod Flow
mod Examples
use gotu.Base.{
  ℕ, zero, suc, ◌+◌, ◌-◌, ◌/◌, ◌%◌, ◌^◌, Bool, true, false, not, ◌&&◌, Option, none, some, List, [],
  ◌∷◌, ◌++◌, ℤ, pos, negsuc, ltb, ltb_ℤ, ◌==◌, if◌then◌else◌, length,
}
use gotu.Wire.{Bytes, int32}

pub record LatencyMsg : Type 0 where
  pub inout : Bool
  pub at : ℕ
  pub msg : Bytes

pub record LatencyActor : Type 0 where
  pub in_loss : ℕ
  pub in_latency : ℕ
  pub out_loss : ℕ
  pub out_latency : ℕ
  pub msgs : List LatencyMsg
  pub in_bytes : ℕ
  pub in_lost_bytes : ℕ
  pub in_lost_packets : ℕ
  pub in_packets : ℕ
  pub in_delay : ℕ
  pub out_bytes : ℕ
  pub out_lost_bytes : ℕ
  pub out_lost_packets : ℕ
  pub out_packets : ℕ
  pub out_delay : ℕ
  pub send_to_cli : Bool  -- whether there is a callback
  pub send_to_svr : Bool

abbrev pub u32 : ℕ → ℕ
u32 n = n % 2 ^ 32

pub record LatencyMockArgs : Type 0 where
  pub in_loss : ℕ
  pub in_latency : ℕ
  pub out_loss : ℕ
  pub out_latency : ℕ

unfoldable pub new_latency_actor : LatencyMockArgs → LatencyActor
new_latency_actor arg = record {
  in_loss = arg.in_loss;
  in_latency = arg.in_latency;
  out_loss = arg.out_loss;
  out_latency = arg.out_latency;
  msgs = [];
  in_bytes = 0;
  in_lost_bytes = 0;
  in_lost_packets = 0;
  in_packets = 0;
  in_delay = 0;
  out_bytes = 0;
  out_lost_bytes = 0;
  out_lost_packets = 0;
  out_packets = 0;
  out_delay = 0;
  send_to_cli = false;
  send_to_svr = false;
}

-- `rand.Int31n(100) < int32(loss)`.
abbrev pub unlucky : ℕ → ℕ → Bool
unlucky r loss = ltb_ℤ (pos (r % 100)) (int32 loss)

unfoldable pub is_loss : Bool → ℕ → ℕ → LatencyActor → LatencyActor × Bool
is_loss true len r l =
    let l' = record l { in_packets = u32 (l.in_packets + 1) } in
    if unlucky r l.in_loss
    then (
      record l' {
        in_lost_packets = u32 (l.in_lost_packets + 1);
        in_lost_bytes = u32 (l.in_lost_bytes + len);
      },
      true,
    )
    else (l', false)
is_loss false len r l =
    let l' = record l { out_packets = u32 (l.out_packets + 1) } in
    if unlucky r l.out_loss
    then (
      record l' {
        out_lost_packets = u32 (l.out_lost_packets + 1);
        out_lost_bytes = u32 (l.out_lost_bytes + len);
      },
      true,
    )
    else (l', false)

-- `rand.Int31n(n)`: it panics where `n` is not positive.
abbrev pub int31n : ℤ → ℕ → Option ℕ
int31n (pos zero) r = none
int31n (pos (suc n)) r = some (r % suc n)
int31n (negsuc n) r = none

unfoldable pub rand_latency : Bool → ℕ → LatencyActor → Option (LatencyActor × ℕ)
rand_latency true r l =
    if ltb 0 l.in_latency
    then elim (int31n (int32 l.in_latency) r) [
      | none ↦ none
      | some rl ↦ some (record l { in_delay = (l.in_delay + rl) % 2 ^ 64 }, rl)
    ]
    else some (l, 0)
rand_latency false r l =
    if ltb 0 l.out_latency
    then elim (int31n (int32 l.out_latency) r) [
      | none ↦ none
      | some rl ↦ some (record l { out_delay = (l.out_delay + rl) % 2 ^ 64 }, rl)
    ]
    else some (l, 0)

-- The append of `extend`, to what `rand_latency` returned.
abbrev pub queue_msg : Bool → ℕ → Bytes → Option (LatencyActor × ℕ) → Option LatencyActor
queue_msg inout now msg none = none
queue_msg inout now msg (some (l, rl)) =
    some (record l { msgs = l.msgs ++ (record { inout = inout; at = now + rl; msg = msg } ∷ []) })

abbrev pub count_bytes : Bool → ℕ → LatencyActor → LatencyActor
count_bytes true len l = record l { in_bytes = u32 (l.in_bytes + len) }
count_bytes false len l = record l { out_bytes = u32 (l.out_bytes + len) }

-- `none` is a panic.
unfoldable pub extend : Bool → ℕ → ℕ → Bytes → LatencyActor → Option LatencyActor
unfolding rand_latency
extend inout now r msg l =
    queue_msg inout now msg (rand_latency inout r (count_bytes inout (length msg) l))

-- `RecvFromSvr` (inout true) and `RecvFromCli` (inout false).
unfoldable pub recv : Bool → ℕ → ℕ → ℕ → Bytes → LatencyActor → Option LatencyActor
unfolding is_loss extend
recv inout now r r' msg l =
    let (l', lost) = is_loss inout (length msg) r l in
    if lost then some l' else extend inout now r' msg l'

-- Which callback got what: true is `sendToCli`.
abbrev pub Sent : Type 0
Sent = List (Bool × Bytes)

abbrev pub registered : Bool → LatencyActor → Bool
registered true l = l.send_to_cli
registered false l = l.send_to_svr

-- The loop of `tickLoop`, with the messages kept and those sent so far.
tick_from : LatencyActor → ℕ → List LatencyMsg → List LatencyMsg → Sent → List LatencyMsg × Sent
tick_from l now [] msgs sent = (msgs, sent)
tick_from l now (m ∷ ms) msgs sent =
    tick_from l now ms (if ltb now m.at then msgs ++ (m ∷ []) else msgs) (
      if ltb now m.at
      then sent
      else if registered m.inout l
      then sent ++ ((m.inout, m.msg) ∷ [])
      else sent)

unfoldable pub tick_loop : ℕ → LatencyActor → LatencyActor × Sent
unfolding tick_from
tick_loop now l =
    let (msgs, sent) = tick_from l now l.msgs [] [] in (record l { msgs = msgs }, sent)

-- The request's function becomes the callback; `given` is whether it is not nil.
unfoldable pub register_send_to_cli : Bool → LatencyActor → LatencyActor
register_send_to_cli given l = record l { send_to_cli = given }

unfoldable pub register_send_to_svr : Bool → LatencyActor → LatencyActor
register_send_to_svr given l = record l { send_to_svr = given }

-- The averages of `Close`: the delay over the packets that were not lost.
abbrev average : ℕ → ℕ → ℕ
average delay transfer = if transfer == 0 then 0 else delay / transfer

unfoldable pub close_averages : LatencyActor → ℕ × ℕ
close_averages l = (
  average l.in_delay ((l.in_packets + 2 ^ 32 - l.in_lost_packets) % 2 ^ 32),
  average l.out_delay ((l.out_packets + 2 ^ 32 - l.out_lost_packets) % 2 ^ 32),
)
