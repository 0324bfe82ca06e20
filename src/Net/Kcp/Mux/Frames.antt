-- ===== src/Net/Kcp/Mux/Frames.antt =====
-- The bytes of the mux: what onMsg makes of what packMsg gives, and of an inline frame in parts.
use gotu.Base.{
  ℕ, ◌+◌, ◌≤◌, ◌<◌, ◌≡◌, ◌≢◌, refl, ap, ◌∙◌, Bool, true, false, Option, none, some, [], ◌∷◌, ◌++◌,
  pos, IsInt32, length, take, drop, Error, arith, if◌then◌else◌, ◌==◌, not_established, length-take,
  dec_lt, ◌⊎◌, inl, inr,
}
use gotu.Wire.{Bytes, put_int32, slice}
use gotu.Wire.Laws.{get_int32-put_int32}
use gotu.Net.Handler.{handled, panicked, OnHandlerOnce}
use gotu.Net.Kcp.Mux.{
  Kms, established, unknown, kms_code, kms_of, Mux, is_established, inline_protocol, mux_pack_msg,
  put_exchange, get_exchange, Conn, mux_on_msg, replied,
}

abbrev pub is_known : Kms → Bool
is_known (unknown z) = false
is_known _ = true

kms_of-kms_code : (k : Kms) → is_known k ≡ true → kms_of (kms_code k) ≡ k
unfolding kms_of kms_code
kms_of-kms_code (unknown z) h = cc
kms_of-kms_code _ h = refl

kms_code-IsInt32 : (k : Kms) → is_known k ≡ true → IsInt32 (kms_code k)
unfolding kms_code
kms_code-IsInt32 (unknown z) h = cc
kms_code-IsInt32 _ h = omega arith

-- The ten named states survive the wire.
get_exchange-put_exchange :
    (k : Kms) (rest : Bytes) → is_known k ≡ true → get_exchange (put_exchange k ++ rest) ≡ k
unfolding get_exchange put_exchange
get_exchange-put_exchange k rest h =
    ap kms_of (get_int32-put_int32 (kms_code k) rest (kms_code-IsInt32 k h)) ∙ kms_of-kms_code k h

not-is_established : (k : Kms) → k ≢ established → is_established k ≡ false
unfolding is_established
not-is_established established h = absurd (h refl)
not-is_established _ h = refl

pub packed :
    (m : Mux) (payload : Bytes) → m.is_inline ≡ true → mux_pack_msg m true payload ≡ 1 ∷ payload
unfolding mux_pack_msg
packed m payload h = ground arith

slice_frame : (buf : Bytes) → 5 ≤ length buf → slice buf 1 (pos 5) ≡ some (drop 1 (take 5 buf))
unfolding slice
slice_frame buf h = ground arith

slice_short : (buf : Bytes) → length buf < 5 → slice buf 1 (pos 5) ≡ none
unfolding slice
slice_short buf h = ground arith

module _ {ℓ} {S : Type ℓ} (handler : OnHandlerOnce S) (spare : Bytes) (c : Conn S) where
  -- With the built-in protocol off the mux is the handler alone.
  mux_on_msg-plain :
      (msg : Bytes) (s : S) (n : ℕ) (e : Option Error)
      → c.mux.is_inline ≡ false
      → handler c.app msg ≡ handled s n e
      → mux_on_msg handler spare c msg ≡ handled (record c { app = s }) n e
  unfolding mux_on_msg
  mux_on_msg-plain msg s n e h k = ground arith

  -- A packed message of the logic layer reaches the handler without its mux byte, and that byte is
  -- counted with what the handler consumed. A handler that waits leaves the mux byte, too.
  mux_on_msg-logic :
      (payload : Bytes) (s : S) (n : ℕ) (e : Option Error)
      → c.mux.is_inline ≡ true
      → c.mux.state ≡ established
      → handler c.app payload ≡ handled s n e
      → mux_on_msg handler spare c (mux_pack_msg c.mux false payload)
        ≡ handled (record c { app = s }) (if n == 0 then 0 else n + 1) e
  unfolding mux_on_msg mux_pack_msg
  mux_on_msg-logic payload s n e h k p = ground arith

  -- A message of the logic layer in any other state is an error, and nothing of it is consumed.
  pub mux_on_msg-early :
      (payload : Bytes)
      → c.mux.is_inline ≡ true
      → c.mux.state ≢ established
      → mux_on_msg handler spare c (mux_pack_msg c.mux false payload)
        ≡ handled c 0 (some (not_established (kms_code c.mux.state)))
  unfolding mux_on_msg mux_pack_msg
  mux_on_msg-early payload h k = ground (arith, not-is_established c.mux.state k)

  on_inline-enough :
      (b : ℕ) (msg : Bytes)
      → c.mux.is_inline ≡ true
      → b ≢ 0
      → 4 ≤ length (msg ++ spare)
      → mux_on_msg handler spare c (b ∷ msg)
        ≡ replied c (inline_protocol c.mux (get_exchange (take 4 (msg ++ spare))))
  unfolding mux_on_msg
  on_inline-enough b msg h k l =
      ground (arith, slice_frame (b ∷ msg ++ spare), length-take 4 (msg ++ spare))

  -- A whole inline message is handled as the state it carries, whatever follows or lies behind it.
  pub mux_on_msg-inline :
      (k : Kms) (rest : Bytes)
      → c.mux.is_inline ≡ true
      → is_known k ≡ true
      → mux_on_msg handler spare c (mux_pack_msg c.mux true (put_exchange k) ++ rest)
        ≡ replied c (inline_protocol c.mux k)
  unfolding mux_pack_msg put_exchange put_int32
  mux_on_msg-inline k rest h known =
      ap (λ x. mux_on_msg handler spare c (x ++ rest)) (packed c.mux (put_exchange k) h)
      ∙ (on_inline-enough 1 (put_exchange k ++ rest) h (λ e. cc) (omega arith)
          ∙ ap (λ x. replied c (inline_protocol c.mux x)) (get_exchange-put_exchange k [] known))

  -- A call of onMsg with an inline message of which only a part has arrived does not wait for the rest.
  -- Where the array behind the cache is long enough, the call takes its old bytes for the missing ones
  -- and answers as inlineProtocol does to whatever state they give; where it is not, the call panics.
  pub mux_on_msg-cut :
      (b : ℕ) (part : Bytes)
      → c.mux.is_inline ≡ true
      → b ≢ 0
      → length part < 4
      → ((4 ≤ length (part ++ spare))
          × (mux_on_msg handler spare c (b ∷ part)
              ≡ replied c (inline_protocol c.mux (get_exchange (take 4 (part ++ spare))))))
        ⊎ ((length (part ++ spare) < 4) × (mux_on_msg handler spare c (b ∷ part) ≡ panicked))
  unfolding mux_on_msg
  mux_on_msg-cut b part h k l = elim (dec_lt (length (part ++ spare)) 4) [
    | yes few ↦ inr (few, ground (arith, slice_short (b ∷ part ++ spare)))
    | no many ↦ inl (omega arith, on_inline-enough b part h k (omega arith))
  ]
