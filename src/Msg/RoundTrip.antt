-- ===== src/Msg/RoundTrip.antt =====
-- PackMsg followed by ParseMsgWarp, for whole messages and for the parts that a network read gives.
use gotu.Base.{
  ◌+◌, ◌<◌, ◌^◌, ◌≡◌, refl, Option, none, [], ◌++◌, append-nil, ℤ, pos, IsInt32, arith, length,
  take, drop, Error, length-append, take-append_self, dec_lt, ap, sym, ◌∙◌,
}
use gotu.Wire.{Bytes, put_int32}
use gotu.Wire.Laws.{get_int32-put_int32}
use gotu.Net.Handler.{handled}
use gotu.Msg.{
  Header, header_sizeof, put_header, get_header, parse_msg_warp, PackMsgArgs, header_of, pack_msg,
}
use gotu.Msg.Parse.{header_at, parse_short, parse_wait, parse_call, header_at-append}

abbrev pub IsInt32Header : Header → Type 0
IsInt32Header h = IsInt32 h.seq × IsInt32 h.cmd × IsInt32 h.flag × IsInt32 h.len

-- What a caller of PackMsg has to give: int32 fields (their Go type) and a payload whose length an
-- int32 holds.
abbrev pub IsPackable : PackMsgArgs → Type 0
IsPackable arg =
    IsInt32 arg.seq × IsInt32 arg.cmd × IsInt32 arg.flag × (length arg.payload < 2 ^ 31)

length-put_header : (h : Header) → length (put_header h) ≡ header_sizeof
unfolding put_header put_int32
length-put_header h = refl

drop_four : (z : ℤ) (rest : Bytes) → drop 4 (put_int32 z ++ rest) ≡ rest
unfolding put_int32
drop_four z rest = refl

-- The header codec is a round trip.
get_header-put_header : (h : Header) → IsInt32Header h → get_header (put_header h) ≡ h
unfolding put_header get_header put_int32
get_header-put_header h (a, b, c, d) = λ i. record {
  seq = get_int32-put_int32 h.seq (put_int32 h.cmd ++ (put_int32 h.flag ++ put_int32 h.len)) a i;
  cmd = get_int32-put_int32 h.cmd (put_int32 h.flag ++ put_int32 h.len) b i;
  flag = get_int32-put_int32 h.flag (put_int32 h.len) c i;
  len = get_int32-put_int32 h.len [] d i;
}

pub header_of_len :
    (arg : PackMsgArgs) → IsPackable arg → (header_of arg).len ≡ pos (length arg.payload)
header_of_len arg v = ground arith

pub length-pack_msg :
    (arg : PackMsgArgs) → length (pack_msg arg) ≡ header_sizeof + length arg.payload
unfolding pack_msg
length-pack_msg arg = omega (
  arith,
  length-append (put_header (header_of arg)) arg.payload,
  length-put_header (header_of arg),
)

take-pack_msg :
    (arg : PackMsgArgs) (rest : Bytes)
    → take header_sizeof (pack_msg arg ++ rest) ≡ put_header (header_of arg)
unfolding pack_msg put_header put_int32
take-pack_msg arg rest = refl

drop-pack_msg : (arg : PackMsgArgs) → drop header_sizeof (pack_msg arg) ≡ arg.payload
unfolding pack_msg put_header put_int32
drop-pack_msg arg = refl

header_at-pack_msg :
    (arg : PackMsgArgs) (rest : Bytes)
    → IsPackable arg
    → header_at (pack_msg arg ++ rest) ≡ header_of arg
header_at-pack_msg arg rest v =
    rw (take-pack_msg arg rest)
      (get_header-put_header (header_of arg) (v.0, v.1, v.2, ground arith))

module _ {ℓ} {S : Type ℓ} (fn : S → Header → Bytes → S × Option Error) (s : S) where
  -- A packed message at the head of the bytes is handed to the handler, with the header that was
  -- packed and the payload, and exactly its bytes are consumed, whatever follows it.
  pub parse_msg_warp-pack_msg :
      (arg : PackMsgArgs) (rest : Bytes)
      → IsPackable arg
      → parse_msg_warp fn s (pack_msg arg ++ rest)
        ≡ (let (s', e) = fn s (header_of arg) arg.payload in handled s' (length (pack_msg arg)) e)
  parse_msg_warp-pack_msg arg rest v =
      let at : header_at (pack_msg arg ++ rest) ≡ header_of arg = header_at-pack_msg arg rest v in
      rw (
        parse_call fn s (pack_msg arg ++ rest) (ap (λ h. h.len) at ∙ header_of_len arg v)
            (omega (arith, length-append (pack_msg arg) rest, length-pack_msg arg)),
        at,
        ← length-pack_msg arg,
        take-append_self (pack_msg arg) rest,
        drop-pack_msg arg,
      )

  -- A proper prefix of a packed message is left for the next read.
  pub parse_msg_warp-prefix :
      (arg : PackMsgArgs) (part rest : Bytes)
      → IsPackable arg
      → part ++ rest ≡ pack_msg arg
      → length part < length (pack_msg arg)
      → parse_msg_warp fn s part ≡ handled s 0 none
  parse_msg_warp-prefix arg part rest v e h = elim (dec_lt (length part) header_sizeof) [
    | yes short ↦ parse_short fn s part short
    | no full ↦
        parse_wait fn s part
          (ap (λ h. h.len)
              (sym (header_at-append part rest (omega arith))
                ∙ (ap header_at (e ∙ sym (append-nil (pack_msg arg)))
                    ∙ header_at-pack_msg arg [] v))
            ∙ header_of_len arg v)
          (omega (arith, length-pack_msg arg))
  ]
