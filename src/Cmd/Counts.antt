-- ===== src/Cmd/Counts.antt =====
-- The client's count and sum of delays, in the integers.
use gotu.Base.{
  ℕ, suc, ◌+◌, ◌%◌, ◌^◌, ◌≤◌, ◌<◌, ◌≡◌, refl, ap, ◌∙◌, ℤ, ◌+ℤ◌, ◌-ℤ◌, IsInt64, Option, none, some,
  List, [], ◌∷◌, map, length, All, arith,
}
use gotu.Wire.{Bytes}
use gotu.Common.{◌+64◌, ◌-64◌}
use gotu.Common.Laws.{+64-eq-add, -64-eq-sub}
use gotu.Net.Stream.{kept}
use gotu.Net.Stream.Frames.{deliver, deliver-next}
use gotu.Msg.{header_of, Header, pack_msg}
use gotu.Msg.RoundTrip.{IsPackable}
use gotu.Msg.Stream.{hand_over}
use gotu.Cmd.{only_payload, TcpClientState, tcp_cli_on_msg}
use gotu.Cmd.Echoes.{pong}

-- What they rely on of the format and of Atoi: an int64 is printed in at most twenty characters and
-- read back.
pub record IsDecimal (sprintf : ℤ → Bytes) (atoi : Bytes → Option ℤ) : Type 0 where
  pub back : (n : ℤ) → IsInt64 n → atoi (sprintf n) ≡ some n
  pub short : (n : ℤ) → IsInt64 n → length (sprintf n) ≤ 20

-- The sum of the delays of replies with these time stamps, in the integers.
abbrev pub delay_sum : (ℕ → ℤ) → ℕ → ℤ → List ℤ → ℤ
delay_sum now i acc [] = acc
delay_sum now i acc (t ∷ ts) = delay_sum now (suc i) (acc +ℤ (now i -ℤ t)) ts

-- Times, delays and their sums are values of an int64.
abbrev pub FitsInt64 : (ℕ → ℤ) → ℕ → ℤ → List ℤ → Type 0
FitsInt64 now i acc [] = Unit
FitsInt64 now i acc (t ∷ ts) =
    IsInt64 t
    × IsInt64 (now i)
    × IsInt64 (now i -ℤ t)
    × IsInt64 (acc +ℤ (now i -ℤ t))
    × FitsInt64 now (suc i) (acc +ℤ (now i -ℤ t)) ts

-- The client's state after these replies.
abbrev pub counted : (ℕ → ℤ) → TcpClientState → List ℤ → TcpClientState
counted now c ts = record {
  delay = delay_sum now c.ticks c.delay ts;
  count = (c.count + length ts) % 2 ^ 32;
  ticks = c.ticks + length ts;
}

module _ {sprintf : ℤ → Bytes} {atoi : Bytes → Option ℤ} (decimal : IsDecimal sprintf atoi) where
  counted_one : (ℕ → ℤ) → TcpClientState → ℤ → TcpClientState
  counted_one now c t = record {
    delay = c.delay +ℤ (now c.ticks -ℤ t);
    count = (c.count + 1) % 2 ^ 32;
    ticks = suc c.ticks;
  }

  on_number :
      (now : ℕ → ℤ) (n : ℤ) (h : Header) (payload : Bytes) (c : TcpClientState)
      → atoi payload ≡ some n
      → tcp_cli_on_msg atoi now c h payload ≡ (
        record {
          delay = c.delay +64 (now c.ticks -64 n);
          count = (c.count + 1) % 2 ^ 32;
          ticks = suc c.ticks;
        },
        none,
      )
  unfolding tcp_cli_on_msg
  on_number now n h payload c e = rw (tcp_cli_on_msg, e) refl

  on_reply :
      (now : ℕ → ℤ) (t : ℤ) (c : TcpClientState)
      → IsInt64 c.delay
      → IsInt64 t
      → IsInt64 (now c.ticks)
      → IsInt64 (now c.ticks -ℤ t)
      → IsInt64 (c.delay +ℤ (now c.ticks -ℤ t))
      → hand_over (tcp_cli_on_msg atoi now) c (only_payload (sprintf t))
        ≡ (counted_one now c t, none)
  unfolding counted_one
  on_reply now t c d v n diff sum =
      let exact : c.delay +64 (now c.ticks -64 t) ≡ c.delay +ℤ (now c.ticks -ℤ t) =
        ap (λ z. c.delay +64 z) (-64-eq-sub (now c.ticks) t n v diff)
        ∙ +64-eq-add c.delay (now c.ticks -ℤ t) d diff sum in
      on_number now t (header_of (only_payload (sprintf t))) (sprintf t) c (decimal.back t v)
      ∙ ap (λ z. (record { delay = z; count = (c.count + 1) % 2 ^ 32; ticks = suc c.ticks }, none))
          exact

  counted-next :
      (now : ℕ → ℤ) (c : TcpClientState) (t : ℤ) (ts : List ℤ)
      → counted now (counted_one now c t) ts ≡ counted now c (t ∷ ts)
  unfolding counted_one
  counted-next now c t ts = λ i. record {
    delay = delay_sum now (suc c.ticks) (c.delay +ℤ (now c.ticks -ℤ t)) ts;
    count = wraps c.count (length ts) i;
    ticks = later c.ticks (length ts) i;
  }
    where
      wraps : (a n : ℕ) → ((a + 1) % 2 ^ 32 + n) % 2 ^ 32 ≡ (a + suc n) % 2 ^ 32
      wraps a n = omega arith

      later : (a n : ℕ) → suc a + n ≡ a + suc n
      later a n = omega arith

  pub deliver-counts :
      (now : ℕ → ℤ) (ts : List ℤ) (c : TcpClientState)
      → IsInt64 c.delay
      → c.count < 2 ^ 32
      → FitsInt64 now c.ticks c.delay ts
      → deliver (hand_over (tcp_cli_on_msg atoi now)) [] c (map (λ t. only_payload (sprintf t)) ts)
        ≡ kept (counted now c ts, [])
  unfolding deliver counted_one
  deliver-counts now [] c d less fits = λ i.
      kept (record { delay = c.delay; count = small c.count less i; ticks = zero_on c.ticks i }, [])
    where
      small : (a : ℕ) → a < 2 ^ 32 → a ≡ (a + 0) % 2 ^ 32
      small a h = omega arith

      zero_on : (a : ℕ) → a ≡ a + 0
      zero_on a = omega arith
  deliver-counts now (t ∷ ts) c d less (v, n, diff, sum, fits) =
      deliver-next (hand_over (tcp_cli_on_msg atoi now)) [] c (counted_one now c t)
        (only_payload (sprintf t)) (map (λ t. only_payload (sprintf t)) ts)
        (on_reply now t c d v n diff sum)
      ∙ deliver-counts now ts (counted_one now c t) sum (omega arith) fits
      ∙ ap (λ r. kept (r, [])) (counted-next now c t ts)

  pub packable :
      (ts : List ℤ) → All IsInt64 ts → All IsPackable (map (λ t. only_payload (sprintf t)) ts)
  packable [] v = tt
  packable (t ∷ ts) (v, vs) = (omega (arith, decimal.short t v), packable ts vs)

  pub pongs-are :
      (ts : List ℤ)
      → map (λ t. pong (sprintf t)) ts ≡ map pack_msg (map (λ t. only_payload (sprintf t)) ts)
  pongs-are [] = refl
  pongs-are (t ∷ ts) = ap (λ xs. pong (sprintf t) ∷ xs) (pongs-are ts)

  pub stamps-are :
      (ts : List ℤ) → map (λ m. m.payload) (map (λ t. only_payload (sprintf t)) ts) ≡ map sprintf ts
  stamps-are [] = refl
  stamps-are (t ∷ ts) = ap (λ xs. sprintf t ∷ xs) (stamps-are ts)
