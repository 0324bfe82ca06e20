-- ===== src/Net/Stream/Frames/Split.antt =====
-- A cut of a stream of frames into what was read and what is still to come.
use gotu.Base.{
  ℕ, ◌≤◌, ◌≡◌, refl, sym, ap, ◌∙◌, List, [], ◌∷◌, ◌++◌, map, append_assoc, length, take, drop,
  concat, All, arith, length-append, drop-append_self, take-append_self, take-append, drop-append,
  take-append-drop, dec_lt,
}
use gotu.Wire.{Bytes}
use gotu.Net.Stream.Frames.{IsPartial}

module _ {κ} {M : Type κ} (frame : M → Bytes) (Fits : M → Type 0) where
  -- A cut of a stream of frames: whole frames, and a part of the next that the rest goes on with.
  pub record Split (before after part : Bytes) (ms : List M) : Type κ where
    pub arrived : List M
    pub later : List M
    pub open_part : Bytes
    pub in_order : arrived ++ later ≡ ms
    pub before_is : before ≡ concat (map frame arrived) ++ open_part
    pub after_is : open_part ++ after ≡ concat (map frame later) ++ part
    pub is_partial : IsPartial frame Fits open_part

  prefix_of :
      (p q m rest : Bytes) → p ++ q ≡ m ++ rest → length p ≤ length m → p ++ drop (length p) m ≡ m
  prefix_of p q m rest e h =
      ap (λ t. t ++ drop (length p) m)
        (sym (take-append_self p q) ∙ ap (take (length p)) e ∙ take-append (length p) m rest h)
      ∙ take-append-drop (length p) m

  pub split :
      (ms : List M) (before after part : Bytes)
      → All Fits ms
      → IsPartial frame Fits part
      → before ++ after ≡ concat (map frame ms) ++ part
      → Split before after part ms
  split [] before after part v p e = record {
    arrived = [];
    later = [];
    open_part = before;
    in_order = refl;
    before_is = refl;
    after_is = e;
    is_partial = record {
      message = p.message;
      fits = p.fits;
      rest = after ++ p.rest;
      joined = sym (append_assoc before after p.rest) ∙ ap (λ t. t ++ p.rest) e ∙ p.joined;
      proper = omega (arith, length-append before after, ap length e, p.proper);
    };
  }
  split (m ∷ ms) before after part v p e = elim (dec_lt (length before) (length (frame m))) [
    | yes short ↦ record {
      arrived = [];
      later = m ∷ ms;
      open_part = before;
      in_order = refl;
      before_is = refl;
      after_is = e;
      is_partial = record {
        message = m;
        fits = v.0;
        rest = drop (length before) (frame m);
        joined = prefix_of before after (frame m) rest flat (omega arith);
        proper = short;
      };
    }
    | no long ↦
        longer (split ms (drop size before) after part v.1 p (cut_at (omega arith))) (omega arith)
  ]
    where
      size : ℕ
      size = length (frame m)

      rest : Bytes
      rest = concat (map frame ms) ++ part

      flat : before ++ after ≡ frame m ++ rest
      flat = e ∙ append_assoc (frame m) (concat (map frame ms)) part

      cut_at : size ≤ length before → drop size before ++ after ≡ rest
      cut_at h =
          sym (drop-append size before after h)
          ∙ ap (drop size) flat
          ∙ drop-append_self (frame m) rest

      head : size ≤ length before → frame m ++ drop size before ≡ before
      head h = prefix_of (frame m) rest before after (sym flat) h

      longer :
          Split (drop size before) after part ms
          → size ≤ length before
          → Split before after part (m ∷ ms)
      longer s h = record {
        arrived = m ∷ s.arrived;
        later = s.later;
        open_part = s.open_part;
        in_order = ap (λ t. m ∷ t) s.in_order;
        before_is =
            sym (head h)
            ∙ ap (λ t. frame m ++ t) s.before_is
            ∙ sym (append_assoc (frame m) (concat (map frame s.arrived)) s.open_part);
        after_is = s.after_is;
        is_partial = s.is_partial;
      }
