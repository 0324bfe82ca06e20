-- ===== src/Latency/Flow/Settings.antt =====
-- What receiving a message leaves as it is in the latency actor (latency.go).
use gotu.Base.{
  ℕ, ◌+◌, ◌%◌, ◌^◌, ◌≡◌, refl, ◌∙◌, Bool, true, false, ltb, Option, none, some, length,
  if◌then◌else◌, if_both,
}
use gotu.Wire.{Bytes, int32}
use gotu.Latency.{
  LatencyActor, is_loss, rand_latency, int31n, queue_msg, count_bytes, extend, recv, unlucky,
}

-- The settings and the callbacks are as before.
abbrev pub IsAlike : LatencyActor → LatencyActor → Type 0
IsAlike l l' =
    (l'.send_to_cli ≡ l.send_to_cli)
    × (l'.send_to_svr ≡ l.send_to_svr)
    × (l'.in_latency ≡ l.in_latency)
    × (l'.out_latency ≡ l.out_latency)

abbrev pub MayBeAlike : LatencyActor → Option LatencyActor → Type 0
MayBeAlike l none = Unit
MayBeAlike l (some l') = IsAlike l l'

abbrev IsDrawn : LatencyActor → Option (LatencyActor × ℕ) → Type 0
IsDrawn l none = Unit
IsDrawn l (some (l', rl)) = IsAlike l l'

rand_latency-IsDrawn :
    (inout : Bool) (r : ℕ) (l : LatencyActor) → IsDrawn l (rand_latency inout r l)
unfolding rand_latency
rand_latency-IsDrawn true r l =
    if_both (IsDrawn l) (ltb 0 l.in_latency) (drawn (int31n (int32 l.in_latency) r))
      (refl, refl, refl, refl)
  where
    drawn :
        (o : Option ℕ)
        → IsDrawn l (elim o [
          | none ↦ none
          | some rl ↦ some (record l { in_delay = (l.in_delay + rl) % 2 ^ 64 }, rl)
        ])
    drawn none = tt
    drawn (some rl) = (refl, refl, refl, refl)
rand_latency-IsDrawn false r l =
    if_both (IsDrawn l) (ltb 0 l.out_latency) (drawn (int31n (int32 l.out_latency) r))
      (refl, refl, refl, refl)
  where
    drawn :
        (o : Option ℕ)
        → IsDrawn l (elim o [
          | none ↦ none
          | some rl ↦ some (record l { out_delay = (l.out_delay + rl) % 2 ^ 64 }, rl)
        ])
    drawn none = tt
    drawn (some rl) = (refl, refl, refl, refl)

queued-MayBeAlike :
    (inout : Bool) (now : ℕ) (msg : Bytes) (l : LatencyActor) (o : Option (LatencyActor × ℕ))
    → IsDrawn l o
    → MayBeAlike l (queue_msg inout now msg o)
queued-MayBeAlike inout now msg l none k = tt
queued-MayBeAlike inout now msg l (some (l', rl)) k = k

extend-MayBeAlike :
    (inout : Bool) (now r : ℕ) (msg : Bytes) (l : LatencyActor)
    → MayBeAlike l (extend inout now r msg l)
unfolding extend
extend-MayBeAlike true now r msg l =
    queued-MayBeAlike true now msg l _
      (rand_latency-IsDrawn true r (count_bytes true (length msg) l))
extend-MayBeAlike false now r msg l =
    queued-MayBeAlike false now msg l _
      (rand_latency-IsDrawn false r (count_bytes false (length msg) l))

-- What `recv` makes of the answer of `isLoss`.
loses-MayBeAlike :
    (l : LatencyActor) (r : LatencyActor × Bool) (k : LatencyActor → Option LatencyActor)
    → IsAlike l r.0
    → MayBeAlike l (k r.0)
    → MayBeAlike l (if r.1 then some r.0 else k r.0)
loses-MayBeAlike l (x, true) k p q = p
loses-MayBeAlike l (x, false) k p q = q

is_loss-IsAlike :
    (inout : Bool) (len r : ℕ) (l : LatencyActor) → IsAlike l (is_loss inout len r l).0
unfolding is_loss
is_loss-IsAlike true len r l =
    if_both (λ (p : LatencyActor × Bool). IsAlike l p.0) (unlucky r l.in_loss)
      (refl, refl, refl, refl) (refl, refl, refl, refl)
is_loss-IsAlike false len r l =
    if_both (λ (p : LatencyActor × Bool). IsAlike l p.0) (unlucky r l.out_loss)
      (refl, refl, refl, refl) (refl, refl, refl, refl)

then_alike :
    (l l' : LatencyActor) (o : Option LatencyActor)
    → IsAlike l l'
    → MayBeAlike l' o
    → MayBeAlike l o
then_alike l l' none k m = tt
then_alike l l' (some l2) (c, s, i, o) (c', s', i', o') = (c' ∙ c, s' ∙ s, i' ∙ i, o' ∙ o)

pub recv-MayBeAlike :
    (inout : Bool) (now r r' : ℕ) (msg : Bytes) (l : LatencyActor)
    → MayBeAlike l (recv inout now r r' msg l)
unfolding recv
recv-MayBeAlike inout now r r' msg l =
    let p = is_loss inout (length msg) r l in
    let k = is_loss-IsAlike inout (length msg) r l in
    loses-MayBeAlike l p (λ l'. extend inout now r' msg l') k
      (then_alike l p.0 (extend inout now r' msg p.0) k (extend-MayBeAlike inout now r' msg p.0))
