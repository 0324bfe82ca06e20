-- ===== src/Net/Write/Each/Flush.antt =====
-- The write loops of udp_socket.go and websocket.go after the close.
use gotu.Base.{
  ℕ, zero, suc, ◌+◌, ◌*◌, ◌≤◌, ◌≡◌, refl, sym, ap, ap₂, subst, ◌∙◌, Bool, true, false, List, [],
  ◌∷◌, ◌++◌, length, append-nil, arith, All, true_ne_false, if◌then◌else◌,
}
use gotu.Net.Write.Each.{
  Phase, looking, writing, ended, Writer, new_writer, Action, receive, wrote, taken, receive_in,
  wrote_in, step, steps,
}
use gotu.Net.Write.Each.Order.{unsent, IsFifo, step-IsFifo, steps-IsFifo}

abbrev pub next_action : {M : Type 0} → Bool → Phase M → Action M
next_action prefer (writing m closing) = wrote false
next_action prefer _ = receive prefer

abbrev rank : {M : Type 0} → Phase M → ℕ
rank (looking false) = 2
rank (looking true) = 1
rank (writing m false) = 3
rank (writing m true) = 2
rank (ended left) = 0

-- A bound on the steps that a closed writer needs.
abbrev pub steps_left : {M : Type 0} → Writer M → ℕ
steps_left w = 2 * length w.chan.queue + rank w.phase

abbrev pub is_ended : {M : Type 0} → Phase M → Bool
is_ended (ended left) = true
is_ended _ = false

-- The loop is over, and everything that was accepted is written.
abbrev pub IsDelivered : {M : Type 0} → Writer M → Type 0
IsDelivered w = (w.phase ≡ ended []) × (w.chan.queue ≡ []) × (w.wire ≡ w.accepted)

module _ {M : Type 0} (limit : ℕ) (is_nil : M → Bool) where
  -- The loop runs alone for `n` steps, and its writes succeed; `prefers` is what its selects prefer, one
  -- after another, by the steps that are left.
  unfoldable pub drive : ℕ → (ℕ → Bool) → Writer M → Writer M
  unfolding step
  drive zero prefers w = w
  drive (suc n) prefers w = drive n prefers (step limit is_nil w (next_action (prefers n) w.phase))

  abbrev closed_at : List M → List M → Phase M → List M → Writer M
  closed_at wire accepted phase queue = record {
    chan = record { queue = queue; closed = true };
    phase = phase;
    wire = wire;
    accepted = accepted;
  }

  abbrev IsDone : Writer M → Type 0
  IsDone w = (w.phase ≡ ended []) × (w.chan.queue ≡ [])

  drive-IsDone :
      (n : ℕ) (prefers : ℕ → Bool) (wire acc : List M)
      → IsDone (drive n prefers (closed_at wire acc (ended []) []))
  unfolding drive
  drive-IsDone zero prefers wire acc = (refl, refl)
  drive-IsDone (suc n) prefers wire acc = drive-IsDone n prefers wire acc

  take_present :
      (wire acc : List M) (m : M) (queue : List M) (closing : Bool)
      → is_nil m ≡ false
      → taken limit is_nil (closed_at wire acc (looking closing) (m ∷ queue)) m queue closing
        ≡ closed_at wire acc (writing m closing) queue
  take_present wire acc m queue closing h =
      ap (λ b. closed_at wire acc (if b then ended (m ∷ []) else writing m closing) queue) h

  either : (P : Bool → Type 0) → P true → P false → (b : Bool) → P b
  either P p q true = p
  either P p q false = q

  drive_lem :
      (n : ℕ) (prefers : ℕ → Bool) (wire acc : List M) (phase : Phase M) (queue : List M)
      → is_ended phase ≡ false
      → All (λ m. is_nil m ≡ false) queue
      → 2 * length queue + rank phase ≤ n
      → IsDone (drive n prefers (closed_at wire acc phase queue))
  unfolding drive receive_in wrote_in
  drive_lem n prefers wire acc (ended left) queue h a k = absurd (true_ne_false h)
  drive_lem zero prefers wire acc (looking true) queue h a k = absurd (omega (arith, k))
  drive_lem zero prefers wire acc (looking false) queue h a k = absurd (omega (arith, k))
  drive_lem zero prefers wire acc (writing m true) queue h a k = absurd (omega (arith, k))
  drive_lem zero prefers wire acc (writing m false) queue h a k = absurd (omega (arith, k))
  drive_lem (suc n) prefers wire acc (looking false) [] h a k =
      drive_lem n prefers wire acc (looking true) [] refl tt (omega (arith, k))
  drive_lem (suc n) prefers wire acc (looking false) (m ∷ queue) h (p, a) k =
      either
        (λ b. IsDone (
          drive n prefers (
            receive_in limit is_nil b (closed_at wire acc (looking false) (m ∷ queue))
              (looking false) (m ∷ queue))))
        (drive_lem n prefers wire acc (looking true) (m ∷ queue) refl (p, a) (omega (arith, k)))
        (subst (λ w. IsDone (drive n prefers w)) (sym (take_present wire acc m queue false p))
          (drive_lem n prefers wire acc (writing m false) queue refl a (omega (arith, k))))
        (prefers n)
  drive_lem (suc n) prefers wire acc (looking true) [] h a k = drive-IsDone n prefers wire acc
  drive_lem (suc n) prefers wire acc (looking true) (m ∷ queue) h (p, a) k =
      subst (λ w. IsDone (drive n prefers w)) (sym (take_present wire acc m queue true p))
        (drive_lem n prefers wire acc (writing m true) queue refl a (omega (arith, k)))
  drive_lem (suc n) prefers wire acc (writing m true) queue h a k =
      drive_lem n prefers (wire ++ (m ∷ [])) acc (looking true) queue refl a (omega (arith, k))
  drive_lem (suc n) prefers wire acc (writing m false) queue h a k =
      drive_lem n prefers (wire ++ (m ∷ [])) acc (looking false) queue refl a (omega (arith, k))

  drive-IsFifo :
      (n : ℕ) (prefers : ℕ → Bool) (w : Writer M)
      → IsFifo limit is_nil w
      → IsFifo limit is_nil (drive n prefers w)
  unfolding drive
  drive-IsFifo zero prefers w h = h
  drive-IsFifo (suc n) prefers w h =
      drive-IsFifo n prefers (step limit is_nil w (next_action (prefers n) w.phase))
        (step-IsFifo limit is_nil w (next_action (prefers n) w.phase) h)

  drive-IsDelivered_from :
      (n : ℕ) (prefers : ℕ → Bool) (w : Writer M)
      → IsFifo limit is_nil w
      → w.chan.closed ≡ true
      → is_ended w.phase ≡ false
      → All (λ m. is_nil m ≡ false) w.chan.queue
      → steps_left w ≤ n
      → IsDelivered (drive n prefers w)
  drive-IsDelivered_from n prefers w fifo c live present k =
      let done : IsDone (drive n prefers w) =
        subst (λ b. IsDone (drive n prefers (record w { chan = record w.chan { closed = b } })))
          (sym c) (drive_lem n prefers w.wire w.accepted w.phase w.chan.queue live present k) in
      let d = drive n prefers w in
      let nothing : [] ≡ unsent d.phase ++ d.chan.queue =
        sym (ap₂ (λ p q. unsent p ++ q) done.0 done.1) in
      (
        done.0,
        done.1,
        sym (append-nil d.wire)
            ∙ (ap (λ t. d.wire ++ t) nothing ∙ (drive-IsFifo n prefers w fifo).0),
      )

  -- Once the socket is closed and its loop not yet over, with no nil among what waits, the loop ends
  -- within the steps that are counted, whatever its selects prefer, if its writes succeed; then the
  -- channel is empty and every message that was accepted has been written, in order.
  pub drive-IsDelivered :
      (n : ℕ) (prefers : ℕ → Bool) (actions : List (Action M))
      → (steps limit is_nil new_writer actions).chan.closed ≡ true
      → is_ended (steps limit is_nil new_writer actions).phase ≡ false
      → All (λ m. is_nil m ≡ false) (steps limit is_nil new_writer actions).chan.queue
      → steps_left (steps limit is_nil new_writer actions) ≤ n
      → IsDelivered (drive n prefers (steps limit is_nil new_writer actions))
  drive-IsDelivered n prefers actions c live present k =
      drive-IsDelivered_from n prefers (steps limit is_nil new_writer actions)
        (steps-IsFifo limit is_nil actions) c live present k
