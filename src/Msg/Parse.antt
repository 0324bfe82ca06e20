-- ===== src/Msg/Parse.antt =====
-- The branches of ParseMsgWarp, each by a condition on the bytes given, and what they share.
use gotu.Base.{
  ℕ, suc, ◌+◌, ◌≤◌, ◌<◌, ◌≡◌, refl, Option, none, some, ◌++◌, ℤ, pos, negsuc, ◌+ℤ◌, ltb_ℤ, arith,
  length, take, drop, Error, length-take, take-append, length-append, ap, ◌⊎◌, inl, inr, false,
  true, dec_lt, ◌∙◌,
}
use gotu.Wire.{Bytes, slice}
use gotu.Msg.{Header, header_sizeof, handled, panicked, get_header, parse_body, parse_msg_warp}

-- The header that the first 16 bytes hold.
abbrev pub header_at : Bytes → Header
header_at msg = get_header (take header_sizeof msg)

add_pos : (a b : ℕ) → pos a +ℤ pos b ≡ pos (a + b)
unfolding ◌+ℤ◌
add_pos a b = ground arith

waits : (l n : ℕ) → l < header_sizeof + n → ltb_ℤ (pos l) (pos header_sizeof +ℤ pos n) ≡ true
unfolding ◌+ℤ◌
waits l n h = ground arith

reaches : (l n : ℕ) → header_sizeof + n ≤ l → ltb_ℤ (pos l) (pos (header_sizeof + n)) ≡ false
reaches l n h = ground arith

-- With a negative length the guard passes, and the slice ends before it begins.
negative :
    (l n : ℕ)
    → header_sizeof ≤ l
    → (ltb_ℤ (pos l) (pos header_sizeof +ℤ negsuc n) ≡ false)
      × (ltb_ℤ (pos header_sizeof +ℤ negsuc n) (pos header_sizeof) ≡ true)
unfolding ◌+ℤ◌
negative l n h = (ground arith, ground arith)

slice-call :
    (msg : Bytes) (n : ℕ)
    → header_sizeof + n ≤ length msg
    → slice msg header_sizeof (pos (header_sizeof + n))
      ≡ some (drop header_sizeof (take (header_sizeof + n) msg))
unfolding slice
slice-call msg n h = ground arith

slice-negative :
    (msg : Bytes) (n : ℕ)
    → header_sizeof ≤ length msg
    → slice msg header_sizeof (pos header_sizeof +ℤ negsuc n) ≡ none
unfolding slice
slice-negative msg n h = rw ((negative (length msg) n h).1)

module _ {ℓ} {S : Type ℓ} (fn : S → Header → Bytes → S × Option Error) (s : S) where
  pub parse_short :
      (msg : Bytes) → length msg < header_sizeof → parse_msg_warp fn s msg ≡ handled s 0 none
  unfolding parse_msg_warp
  parse_short msg h = ground arith

  parse_header :
      (msg : Bytes)
      → header_sizeof ≤ length msg
      → parse_msg_warp fn s msg ≡ parse_body fn s msg (header_at msg)
  unfolding parse_msg_warp
  parse_header msg h = ground (arith, length-take header_sizeof msg)

  pub parse_wait :
      (msg : Bytes) {n : ℕ}
      → (header_at msg).len ≡ pos n
      → length msg < header_sizeof + n
      → parse_msg_warp fn s msg ≡ handled s 0 none
  unfolding parse_body
  parse_wait msg {n} e h = elim (dec_lt (length msg) header_sizeof) [
    | yes short ↦ parse_short msg short
    | no full ↦ rw (parse_header msg (omega arith)) (rw (e, waits (length msg) n h))
  ]

  -- A header whose length field is negative, with any bytes behind it, panics: the length guard lets
  -- it pass, and the slice of the payload ends before it begins.
  pub parse_negative :
      (msg : Bytes) {n : ℕ}
      → header_sizeof ≤ length msg
      → (header_at msg).len ≡ negsuc n
      → parse_msg_warp fn s msg ≡ panicked
  unfolding parse_body
  parse_negative msg {n} h e =
      rw (parse_header msg h) (rw (e, (negative (length msg) n h).0) (rw (slice-negative msg n h)))

  pub parse_call :
      (msg : Bytes) {n : ℕ}
      → (header_at msg).len ≡ pos n
      → header_sizeof + n ≤ length msg
      → parse_msg_warp fn s msg ≡ (
          let payload = drop header_sizeof (take (header_sizeof + n) msg) in
          let (s', e) = fn s (header_at msg) payload in handled s' (header_sizeof + n) e)
  unfolding parse_body
  parse_call msg {n} e h =
      rw (parse_header msg (omega arith))
        (simp (e, add_pos header_sizeof n, reaches (length msg) n h, slice-call msg n h))

-- The four shapes of the bytes that a parse is given.
pub data Frame (msg : Bytes) : Type 0 where
  short : length msg < header_sizeof → Frame msg
  waiting : {n : ℕ} → (header_at msg).len ≡ pos n → length msg < header_sizeof + n → Frame msg
  whole : {n : ℕ} → (header_at msg).len ≡ pos n → header_sizeof + n ≤ length msg → Frame msg
  broken : {n : ℕ} → header_sizeof ≤ length msg → (header_at msg).len ≡ negsuc n → Frame msg

ℤ-cases : (z : ℤ) → ((n : ℕ) × (z ≡ pos n)) ⊎ ((n : ℕ) × (z ≡ negsuc n))
ℤ-cases (pos n) = inl (n, refl)
ℤ-cases (negsuc n) = inr (n, refl)

pub frame : (msg : Bytes) → Frame msg
frame msg = elim (dec_lt (length msg) header_sizeof) [
  | yes h ↦ short h
  | no full ↦ elim (ℤ-cases (header_at msg).len) [
    | inr (n, e) ↦ broken (omega arith) e
    | inl (n, e) ↦ elim (dec_lt (length msg) (header_sizeof + n)) [
      | yes h ↦ waiting e h
      | no h ↦ whole e (omega arith)
    ]
  ]
]

-- More bytes behind a whole header leave the header as it is.
pub header_at-append :
    (msg rest : Bytes) → header_sizeof ≤ length msg → header_at (msg ++ rest) ≡ header_at msg
header_at-append msg rest h = ap get_header (take-append header_sizeof msg rest h)

module _ {ℓ} {S : Type ℓ} (fn : S → Header → Bytes → S × Option Error) (s : S) where
  -- What a parse consumes lies within what it is given.
  pub parse_bounds :
      (msg : Bytes) (s' : S) (n : ℕ) (e : Option Error)
      → parse_msg_warp fn s msg ≡ handled s' n e
      → n ≤ length msg
  parse_bounds msg s' n e h = elim (frame msg) [
    | short a ↦ ground (arith, parse_short fn s msg a)
    | waiting a b ↦ ground (arith, parse_wait fn s msg a b)
    | whole a b ↦ ground (arith, parse_call fn s msg a b)
    | broken a b ↦ ground (arith, parse_negative fn s msg a b)
  ]

  -- A parse that consumes nothing has not called the handler and reports no error.
  pub parse_zero :
      (msg : Bytes) (s' : S) (e : Option Error)
      → parse_msg_warp fn s msg ≡ handled s' 0 e
      → (s' ≡ s) × (e ≡ none)
  parse_zero msg s' e h = elim (frame msg) [
    | short a ↦ ground (arith, parse_short fn s msg a)
    | waiting a b ↦ ground (arith, parse_wait fn s msg a b)
    | whole a b ↦ ground (arith, parse_call fn s msg a b)
    | broken a b ↦ ground (arith, parse_negative fn s msg a b)
  ]

  parse_whole-append :
      (msg rest : Bytes) {n : ℕ}
      → (header_at msg).len ≡ pos n
      → header_sizeof + n ≤ length msg
      → parse_msg_warp fn s (msg ++ rest) ≡ parse_msg_warp fn s msg
  parse_whole-append msg rest {n} a b = rw (parse_call fn s msg a b) (
      rw (
        parse_call fn s (msg ++ rest)
            (ap (λ h. h.len) (header_at-append msg rest (omega arith)) ∙ a)
            (omega (arith, length-append msg rest)),
        header_at-append msg rest (omega arith),
        take-append (header_sizeof + n) msg rest b,
      ))

  -- A message that is there whole is parsed the same when more bytes follow it.
  pub parse-append :
      (msg rest : Bytes) (s' : S) (n : ℕ) (e : Option Error)
      → parse_msg_warp fn s msg ≡ handled s' (suc n) e
      → parse_msg_warp fn s (msg ++ rest) ≡ handled s' (suc n) e
  parse-append msg rest s' n e h = elim (frame msg) [
    | short a ↦ ground (arith, parse_short fn s msg a)
    | waiting a b ↦ ground (arith, parse_wait fn s msg a b)
    | broken a b ↦ ground (arith, parse_negative fn s msg a b)
    | whole a b ↦ parse_whole-append msg rest a b ∙ h
  ]

  pub parse_crash :
      (msg rest : Bytes)
      → parse_msg_warp fn s msg ≡ panicked
      → parse_msg_warp fn s (msg ++ rest) ≡ panicked
  parse_crash msg rest h = elim (frame msg) [
    | short a ↦ ground (arith, parse_short fn s msg a)
    | waiting a b ↦ ground (arith, parse_wait fn s msg a b)
    | whole a b ↦ ground (arith, parse_call fn s msg a b)
    | broken a b ↦
        parse_negative fn s (msg ++ rest) (omega (arith, length-append msg rest))
          (ap (λ h. h.len) (header_at-append msg rest a) ∙ b)
  ]
