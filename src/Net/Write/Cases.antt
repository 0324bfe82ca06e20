-- ===== src/Net/Write/Cases.antt =====
-- The branches of a send.
use gotu.Base.{
  ℕ, ◌<◌, ◌≡◌, ◌⊎◌, ap, inl, inr, Bool, true, ◌&&◌, none, some, [], ◌∷◌, ◌++◌, length, arith,
  Bool-cases, ltb→lt, Error, sock_closed, msg_overflow, refl, false, lt→ltb,
}
use gotu.Net.Write.{Channel, accepts, send_msg}

and_left : (a b : Bool) → (a && b) ≡ true → a ≡ true
and_left a b h = ground (arith, h)

module _ {ℓ} {M : Type ℓ} where
  -- A send either enters the queue, which then had room, or is an error and changes nothing.
  pub send_msg-cases :
      (limit : ℕ) (pick : Bool) (m : M) (c : Channel M)
      → ((send_msg limit pick m c ≡ (record c { queue = c.queue ++ (m ∷ []) }, none))
          × (length c.queue < limit))
        ⊎ ((e : Error) × (send_msg limit pick m c ≡ (c, some e)))
  unfolding send_msg
  send_msg-cases limit pick m c = elim (Bool-cases (accepts limit pick c)) [
    | inl e ↦ inl (rw e refl, ltb→lt _ _ (and_left _ _ e))
    | inr e ↦ elim (Bool-cases c.closed) [
      | inl k ↦ inr (sock_closed, rw (e, k) refl)
      | inr k ↦ inr (msg_overflow, rw (e, k) refl)
    ]
  ]

  accepts-open :
      (limit : ℕ) (pick : Bool) (c : Channel M)
      → c.closed ≡ false
      → length c.queue < limit
      → accepts limit pick c ≡ true
  accepts-open limit true c h room = ground (arith, lt→ltb (length c.queue) limit room)
  accepts-open limit false c h room = ground (arith, h, lt→ltb (length c.queue) limit room)

  -- A send to an open channel with room enters the queue, whatever `pick` is.
  pub send_msg-open :
      (limit : ℕ) (pick : Bool) (m : M) (c : Channel M)
      → c.closed ≡ false
      → length c.queue < limit
      → send_msg limit pick m c ≡ (record c { queue = c.queue ++ (m ∷ []) }, none)
  unfolding send_msg
  send_msg-open limit pick m c h room = rw (accepts-open limit pick c h room) refl

  -- A send leaves the channel open or closed as it was.
  pub send_msg-closed :
      (limit : ℕ) (pick : Bool) (m : M) (c : Channel M)
      → (send_msg limit pick m c).0.closed ≡ c.closed
  send_msg-closed limit pick m c = elim (send_msg-cases limit pick m c) [
    | inl (e, room) ↦ ap (λ r. r.0.closed) e
    | inr (error, e) ↦ ap (λ r. r.0.closed) e
  ]

  accepts-closed : (limit : ℕ) (c : Channel M) → c.closed ≡ true → accepts limit false c ≡ false
  accepts-closed limit c h = ground (arith, h)

  -- A send to a closed channel, whose select takes the close, is an error.
  pub send_msg-refused :
      (limit : ℕ) (m : M) (c : Channel M)
      → c.closed ≡ true
      → (send_msg limit false m c).1 ≡ some sock_closed
  unfolding send_msg
  send_msg-refused limit m c h = rw (accepts-closed limit c h, h) refl
