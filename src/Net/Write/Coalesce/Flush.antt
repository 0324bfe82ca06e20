-- ===== src/Net/Write/Coalesce/Flush.antt =====
-- The write loops of tcp_socket.go and kcp_socket.go after the close.
use gotu.Base.{
  ℕ, zero, suc, ◌+◌, ◌*◌, ◌≤◌, ◌≡◌, refl, sym, ap, ◌∙◌, Bool, true, false, List, [], ◌∷◌, ◌++◌,
  length, concat, append-nil, arith, true_ne_false, leb_refl, subst, ap₂,
}
use gotu.Wire.{Bytes}
use gotu.Net.Write.Coalesce.{
  Kind, tcp, kcp, Phase, waiting, collecting, writing, ended, Writer, new_writer, Action, receive,
  wrote, written, wrote_in, step, steps,
}
use gotu.Net.Write.Coalesce.Order.{IsOrdered, unsent, step-IsOrdered, steps-IsOrdered}

-- The loop's own next step, where Write takes all that it is given.
abbrev pub next_action : Bool → Phase → Action
next_action prefer (writing msg closed) = wrote (length msg) false
next_action prefer _ = receive prefer

-- The loop runs alone for `n` steps; `prefer` is what the select does where both cases are ready.
unfoldable pub drive : ℕ → Kind → Bool → Writer → Writer
unfolding step
drive zero kind prefer w = w
drive (suc n) kind prefer w = drive n kind prefer (step kind w (next_action prefer w.phase))

abbrev rank : Phase → ℕ
rank (ended left) = 0
rank (writing msg true) = 1
rank (collecting msg true) = 2
rank waiting = 3
rank (writing msg false) = 4
rank (collecting msg false) = 5

-- A bound on the steps that a closed writer needs.
abbrev pub steps_left : Writer → ℕ
steps_left w = 3 * length w.chan.queue + rank w.phase

-- The loop will look at the channel again, or nothing waits there.
abbrev pub IsLive : Phase → List Bytes → Type 0
IsLive waiting queue = Unit
IsLive (collecting msg closed) queue = Unit
IsLive (writing msg true) queue = queue ≡ []
IsLive (writing msg false) queue = Unit
IsLive (ended left) queue = true ≡ false

abbrev closed_at : Bytes → List Bytes → Phase → List Bytes → Writer
closed_at wire accepted phase queue = record {
  chan = record { queue = queue; closed = true };
  phase = phase;
  wire = wire;
  accepted = accepted;
}

abbrev pub IsFlushed : Writer → Type 0
IsFlushed w = (w.phase ≡ ended []) × (w.chan.queue ≡ []) × (w.wire ≡ concat w.accepted)

IsDone : Writer → Type 0
IsDone w = (w.phase ≡ ended []) × (w.chan.queue ≡ [])

drive-IsDone :
    (n : ℕ) (kind : Kind) (prefer : Bool) (wire : Bytes) (acc : List Bytes)
    → IsDone (drive n kind prefer (closed_at wire acc (ended []) []))
unfolding drive IsDone
drive-IsDone zero kind prefer wire acc = (refl, refl)
drive-IsDone (suc n) kind prefer wire acc = drive-IsDone n kind prefer wire acc

pub wrote_whole :
    (kind : Kind) (w : Writer) (msg : Bytes) (ret : Bool)
    → step kind (record w { phase = writing msg ret }) (wrote (length msg) false)
      ≡ record w { wire = w.wire ++ msg; phase = written ret }
unfolding step wrote_in
wrote_whole kind w msg ret = rw (leb_refl (length msg)) refl

drive_lem :
    (n : ℕ) (kind : Kind) (prefer : Bool) (wire : Bytes) (acc : List Bytes) (phase : Phase)
    (queue : List Bytes)
    → IsLive phase queue
    → 3 * length queue + rank phase ≤ n
    → IsDone (drive n kind prefer (closed_at wire acc phase queue))
unfolding drive IsDone
drive_lem zero kind prefer wire acc waiting queue h k = absurd (omega (arith, k))
drive_lem zero kind prefer wire acc (collecting msg true) queue h k = absurd (omega (arith, k))
drive_lem zero kind prefer wire acc (collecting msg false) queue h k = absurd (omega (arith, k))
drive_lem zero kind prefer wire acc (writing msg true) queue h k = absurd (omega (arith, k))
drive_lem zero kind prefer wire acc (writing msg false) queue h k = absurd (omega (arith, k))
drive_lem zero kind prefer wire acc (ended left) queue h k = absurd (true_ne_false h)
drive_lem (suc n) kind prefer wire acc waiting [] h k =
    drive_lem n kind prefer wire acc (collecting [] true) [] tt (omega (arith, k))
drive_lem (suc n) kind true wire acc waiting (m ∷ queue) h k =
    drive_lem n kind true wire acc (collecting [] true) (m ∷ queue) tt (omega (arith, k))
drive_lem (suc n) kind false wire acc waiting (m ∷ queue) h k =
    drive_lem n kind false wire acc (collecting m false) queue tt (omega (arith, k))
drive_lem (suc n) tcp prefer wire acc (collecting [] closed) [] h k =
    drive-IsDone n tcp prefer wire acc
drive_lem (suc n) tcp prefer wire acc (collecting (b ∷ msg) true) [] h k =
    drive_lem n tcp prefer wire acc (writing (b ∷ msg) true) [] refl (omega (arith, k))
drive_lem (suc n) tcp prefer wire acc (collecting (b ∷ msg) false) [] h k =
    drive_lem n tcp prefer wire acc (writing (b ∷ msg) false) [] tt (omega (arith, k))
drive_lem (suc n) kcp prefer wire acc (collecting msg true) [] h k =
    drive_lem n kcp prefer wire acc (writing msg true) [] refl (omega (arith, k))
drive_lem (suc n) kcp prefer wire acc (collecting msg false) [] h k =
    drive_lem n kcp prefer wire acc (writing msg false) [] tt (omega (arith, k))
drive_lem (suc n) kind prefer wire acc (collecting msg true) (m ∷ queue) h k =
    drive_lem n kind prefer wire acc (collecting (msg ++ m) true) queue tt (omega (arith, k))
drive_lem (suc n) kind prefer wire acc (collecting msg false) (m ∷ queue) h k =
    drive_lem n kind prefer wire acc (collecting (msg ++ m) false) queue tt (omega (arith, k))
drive_lem (suc n) kind prefer wire acc (writing msg true) queue h k =
    subst (λ q. IsDone (drive (suc n) kind prefer (closed_at wire acc (writing msg true) q)))
      (sym h)
      (subst (λ w. IsDone (drive n kind prefer w))
        (sym (wrote_whole kind (closed_at wire acc waiting []) msg true))
        (drive-IsDone n kind prefer (wire ++ msg) acc))
drive_lem (suc n) kind prefer wire acc (writing msg false) queue h k =
    subst (λ w. IsDone (drive n kind prefer w))
      (sym (wrote_whole kind (closed_at wire acc waiting queue) msg false))
      (drive_lem n kind prefer (wire ++ msg) acc waiting queue tt (omega (arith, k)))
drive_lem (suc n) kind prefer wire acc (ended left) queue h k = absurd (true_ne_false h)

drive-IsOrdered :
    (n : ℕ) (kind : Kind) (prefer : Bool) (w : Writer)
    → IsOrdered w
    → IsOrdered (drive n kind prefer w)
unfolding drive
drive-IsOrdered zero kind prefer w h = h
drive-IsOrdered (suc n) kind prefer w h =
    drive-IsOrdered n kind prefer (step kind w (next_action prefer w.phase))
      (step-IsOrdered kind w (next_action prefer w.phase) h)

drive-IsFlushed_from :
    (n : ℕ) (kind : Kind) (prefer : Bool) (w : Writer)
    → IsOrdered w
    → w.chan.closed ≡ true
    → IsLive w.phase w.chan.queue
    → steps_left w ≤ n
    → IsFlushed (drive n kind prefer w)
unfolding IsDone
drive-IsFlushed_from n kind prefer w ordered c live k =
    let done : IsDone (drive n kind prefer w) =
      subst (λ b. IsDone (drive n kind prefer (record w { chan = record w.chan { closed = b } })))
        (sym c) (drive_lem n kind prefer w.wire w.accepted w.phase w.chan.queue live k) in
    let d = drive n kind prefer w in
    let nothing : [] ≡ unsent d.phase ++ concat d.chan.queue =
      sym (ap₂ (λ p q. unsent p ++ concat q) done.0 done.1) in
    (
      done.0,
      done.1,
      sym (append-nil d.wire)
          ∙ ap (λ t. d.wire ++ t) nothing
          ∙ (drive-IsOrdered n kind prefer w ordered).0,
    )

-- Once the socket is closed, with the loop still to look at the channel or the channel empty, the loop
-- ends within the steps that are counted, whatever its selects prefer, if Write takes what it is
-- given; then the channel is empty and every message that was accepted has been written, in order.
pub drive-IsFlushed :
    (n : ℕ) (kind : Kind) (prefer : Bool) (actions : List Action)
    → (steps kind new_writer actions).chan.closed ≡ true
    → IsLive (steps kind new_writer actions).phase (steps kind new_writer actions).chan.queue
    → steps_left (steps kind new_writer actions) ≤ n
    → IsFlushed (drive n kind prefer (steps kind new_writer actions))
drive-IsFlushed n kind prefer actions c live k =
    drive-IsFlushed_from n kind prefer (steps kind new_writer actions)
      (steps-IsOrdered kind actions) c live k
