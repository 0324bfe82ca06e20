-- ===== src/Latency/Tick.antt =====
-- The queue of the latency actor: RecvFromCli, RecvFromSvr and tickLoop.
use gotu.Base.{
  ℕ, zero, suc, ◌+◌, ◌≤◌, ◌<◌, ◌%◌, ◌^◌, ◌≡◌, refl, ap, ◌∙◌, sym, Bool, true, false, some, List, [],
  ◌∷◌, ◌++◌, ltb, if◌then◌else◌, length, arith, append_assoc, append-nil, Bool-cases, inl, inr, ◌⊎◌,
  ltb→lt, ◌-◌, pos, subst,
}
use gotu.Wire.{Bytes, int32}
use gotu.Latency.{
  LatencyMsg, LatencyActor, Sent, registered, tick_from, tick_loop, extend, recv, rand_latency,
  is_loss, int31n, unlucky, u32, queue_msg, count_bytes,
}

-- The messages that are not due yet, in order.
abbrev pub later : ℕ → List LatencyMsg → List LatencyMsg
later now [] = []
later now (m ∷ ms) = if ltb now m.at then m ∷ later now ms else later now ms

-- The messages that are due, in order.
abbrev pub due : ℕ → List LatencyMsg → Sent
due now [] = []
due now (m ∷ ms) = if ltb now m.at then due now ms else (m.inout, m.msg) ∷ due now ms

tick_from_lem :
    (l : LatencyActor) (now : ℕ) (ms kept : List LatencyMsg) (sent : Sent)
    → l.send_to_cli ≡ true
    → l.send_to_svr ≡ true
    → tick_from l now ms kept sent ≡ (kept ++ later now ms, sent ++ due now ms)
unfolding tick_from
tick_from_lem l now [] kept sent c s = rw (append-nil kept, append-nil sent)
tick_from_lem l now (m ∷ ms) kept sent c s = elim (Bool-cases (ltb now m.at)) [
  | inl e ↦ rw e (
      tick_from_lem l now ms (kept ++ (m ∷ [])) sent c s
      ∙ ap (λ k. (k, sent ++ due now ms)) (append_assoc kept (m ∷ []) (later now ms)))
  | inr e ↦
      rw (e, both m.inout)
        (tick_from_lem l now ms kept (sent ++ ((m.inout, m.msg) ∷ [])) c s
          ∙ ap (λ t. (kept ++ later now ms, t))
              (append_assoc sent ((m.inout, m.msg) ∷ []) (due now ms)))
]
  where
    both : (inout : Bool) → registered inout l ≡ true
    both true = c
    both false = s

-- With both callbacks registered a tick hands over exactly the messages that are due, each to the
-- callback of its direction and in the order in which they came, and keeps exactly the others, in
-- order.
pub tick_loop-splits :
    (l : LatencyActor) (now : ℕ)
    → l.send_to_cli ≡ true
    → l.send_to_svr ≡ true
    → tick_loop now l ≡ (record l { msgs = later now l.msgs }, due now l.msgs)
unfolding tick_loop
tick_loop-splits l now c s =
    ap (λ r. (record l { msgs = r.0 }, r.1)) (tick_from_lem l now l.msgs [] [] c s)

-- The latency of a direction, and below its percentage of loss.
abbrev pub latency : Bool → LatencyActor → ℕ
latency true l = l.in_latency
latency false l = l.out_latency

int32_small : (n : ℕ) → n < 2 ^ 31 → int32 n ≡ pos n
int32_small n h = ground arith

int31n_small : (n r : ℕ) → n < 2 ^ 31 → 0 < n → (rl : ℕ) × (int31n (int32 n) r ≡ some rl) × (rl < n)
int31n_small zero r h k = (0, ground arith, omega (arith, k))
int31n_small (suc n) r h k = (r % suc n, rw (int32_small (suc n) h) refl, omega arith)

rand_latency_lem :
    (inout : Bool) (r : ℕ) (l : LatencyActor)
    → latency inout l < 2 ^ 31
    → (l' : LatencyActor) × (rl : ℕ) × (rand_latency inout r l ≡ some (l', rl))
      × (l'.msgs ≡ l.msgs)
      × (rl ≤ latency inout l - 1)
unfolding rand_latency
rand_latency_lem true r l h = elim (Bool-cases (ltb 0 l.in_latency)) [
  | inl e ↦
      let (rl, eq, less) = int31n_small l.in_latency r h (ltb→lt _ _ e) in
      (
        record l { in_delay = (l.in_delay + rl) % 2 ^ 64 },
        rl,
        rw (e, eq) refl,
        refl,
        omega (arith, less),
      )
  | inr e ↦ (l, 0, rw e refl, refl, omega arith)
]
rand_latency_lem false r l h = elim (Bool-cases (ltb 0 l.out_latency)) [
  | inl e ↦
      let (rl, eq, less) = int31n_small l.out_latency r h (ltb→lt _ _ e) in
      (
        record l { out_delay = (l.out_delay + rl) % 2 ^ 64 },
        rl,
        rw (e, eq) refl,
        refl,
        omega (arith, less),
      )
  | inr e ↦ (l, 0, rw e refl, refl, omega arith)
]

extend_lem :
    (inout : Bool) (now r : ℕ) (msg : Bytes) (l : LatencyActor)
    → latency inout l < 2 ^ 31
    → (l' : LatencyActor) × (delay : ℕ) × (extend inout now r msg l ≡ some l')
      × (l'.msgs ≡ l.msgs ++ (record { inout = inout; at = now + delay; msg = msg } ∷ []))
      × (delay ≤ latency inout l - 1)
unfolding extend
extend_lem true now r msg l h =
    let (l', rl, eq, same, less) = rand_latency_lem true r (count_bytes true (length msg) l) h in
    (_, rl, ap (queue_msg true now msg) eq, rw same refl, less)
extend_lem false now r msg l h =
    let (l', rl, eq, same, less) = rand_latency_lem false r (count_bytes false (length msg) l) h in
    (_, rl, ap (queue_msg false now msg) eq, rw same refl, less)

abbrev pub loss : Bool → LatencyActor → ℕ
loss true l = l.in_loss
loss false l = l.out_loss

-- A message that the random number dooms is not queued.
recv_lost :
    (inout : Bool) (now r r' : ℕ) (msg : Bytes) (l : LatencyActor)
    → unlucky r (loss inout l) ≡ true
    → (l' : LatencyActor) × (recv inout now r r' msg l ≡ some l') × (l'.msgs ≡ l.msgs)
unfolding recv is_loss
recv_lost true now r r' msg l e = (
  record l {
    in_packets = u32 (l.in_packets + 1);
    in_lost_packets = u32 (l.in_lost_packets + 1);
    in_lost_bytes = u32 (l.in_lost_bytes + length msg);
  },
  rw e refl,
  refl,
)
recv_lost false now r r' msg l e = (
  record l {
    out_packets = u32 (l.out_packets + 1);
    out_lost_packets = u32 (l.out_lost_packets + 1);
    out_lost_bytes = u32 (l.out_lost_bytes + length msg);
  },
  rw e refl,
  refl,
)

abbrev count_packet : Bool → LatencyActor → LatencyActor
count_packet true l = record l { in_packets = u32 (l.in_packets + 1) }
count_packet false l = record l { out_packets = u32 (l.out_packets + 1) }

is_loss_kept :
    (inout : Bool) (len r : ℕ) (l : LatencyActor)
    → unlucky r (loss inout l) ≡ false
    → is_loss inout len r l ≡ (count_packet inout l, false)
unfolding is_loss
is_loss_kept true len r l e = rw e refl
is_loss_kept false len r l e = rw e refl

kept_packet :
    (inout : Bool) (l : LatencyActor)
    → ((count_packet inout l).msgs ≡ l.msgs)
      × (latency inout (count_packet inout l) ≡ latency inout l)
kept_packet true l = (refl, refl)
kept_packet false l = (refl, refl)

recv_kept :
    (inout : Bool) (now r r' : ℕ) (msg : Bytes) (l : LatencyActor)
    → latency inout l < 2 ^ 31
    → unlucky r (loss inout l) ≡ false
    → (l' : LatencyActor) × (delay : ℕ) × (recv inout now r r' msg l ≡ some l')
      × (l'.msgs ≡ l.msgs ++ (record { inout = inout; at = now + delay; msg = msg } ∷ []))
      × (delay ≤ latency inout l - 1)
unfolding recv
recv_kept inout now r r' msg l h e =
    let (same, equal) = kept_packet inout l in
    let (l', d, eq, queued, less) =
      extend_lem inout now r' msg (count_packet inout l) (subst (λ n. n < 2 ^ 31) (sym equal) h) in
    (
      l',
      d,
      ap (λ p. if p.1 then some p.0 else extend inout now r' msg p.0)
            (is_loss_kept inout (length msg) r l e)
          ∙ eq,
      queued ∙ ap (λ q. q ++ (record { inout = inout; at = now + d; msg = msg } ∷ [])) same,
      subst (λ n. d ≤ n - 1) equal less,
    )

-- Where the latency of a direction is below 2^31, receiving a message of that direction does not
-- panic: either it is lost, which the random number decides against the percentage, and the queue
-- stays as it is, or it is queued last, due no earlier than now and later by less than the latency,
-- or at once where the latency is 0.
pub recv-queues :
    (inout : Bool) (now r r' : ℕ) (msg : Bytes) (l : LatencyActor)
    → latency inout l < 2 ^ 31
    → ((unlucky r (loss inout l) ≡ true)
        × ((l' : LatencyActor) × (recv inout now r r' msg l ≡ some l') × (l'.msgs ≡ l.msgs)))
      ⊎ ((unlucky r (loss inout l) ≡ false)
          × ((l' : LatencyActor) × (delay : ℕ) × (recv inout now r r' msg l ≡ some l')
              × (l'.msgs ≡ l.msgs ++ (record { inout = inout; at = now + delay; msg = msg } ∷ []))
              × (delay ≤ latency inout l - 1)))
recv-queues inout now r r' msg l h = elim (Bool-cases (unlucky r (loss inout l))) [
  | inl e ↦ inl (e, recv_lost inout now r r' msg l e)
  | inr e ↦ inr (e, recv_kept inout now r r' msg l h e)
]
