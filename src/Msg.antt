-- ===== src/Msg.antt =====
-- pkg/xmsg/codec.go and common.go: messages with a header of four int32 fields.
-- A handler `fn` changes the connection's state `S` and returns an error or none.
pub mod Parse
pub mod RoundTrip
pub mod Stream
pub mod Delivery
mod Examples
use gotu.Base.{
  ℕ, Option, none, some, ◌++◌, ℤ, pos, pos_part, ◌+ℤ◌, ltb_ℤ, ltb, if◌then◌else◌, length, take,
  drop, Error, ◌%◌, ◌^◌,
}
use gotu.Net.Handler.{Handled, handled, panicked}
use gotu.Wire.{Bytes, ok, err, int32, put_int32, get_int32, read_fixed, slice}

pub record Header : Type 0 where
  pub seq : ℤ
  pub cmd : ℤ
  pub flag : ℤ
  pub len : ℤ

abbrev pub header_sizeof : ℕ
header_sizeof = 16

-- The four fields in order, as `binary.Write` and `binary.Read` lay out the struct.
unfoldable pub put_header : Header → Bytes
put_header h = put_int32 h.seq ++ (put_int32 h.cmd ++ (put_int32 h.flag ++ put_int32 h.len))

unfoldable pub get_header : Bytes → Header
get_header bs = record {
  seq = get_int32 bs;
  cmd = get_int32 (drop 4 bs);
  flag = get_int32 (drop 8 bs);
  len = get_int32 (drop 12 bs);
}

-- The part of `ParseMsgWarp` after the header is decoded: `msg[16 : 16+int(header.Len)]`.
unfoldable pub parse_body {ℓ} :
    {S : Type ℓ} → (S → Header → Bytes → S × Option Error) → S → Bytes → Header → Handled S
parse_body fn s msg header =
    if ltb_ℤ (pos (length msg)) (pos header_sizeof +ℤ header.len)
    then handled s 0 none
    else elim (slice msg header_sizeof (pos header_sizeof +ℤ header.len)) [
      | none ↦ panicked
      | some payload ↦
          let (s', e) = fn s header payload in
          handled s' (pos_part (pos header_sizeof +ℤ header.len)) e
    ]

unfoldable pub parse_msg_warp {ℓ} :
    {S : Type ℓ} → (S → Header → Bytes → S × Option Error) → S → Bytes → Handled S
unfolding parse_body read_fixed
parse_msg_warp fn s msg =
    if ltb (length msg) header_sizeof
    then handled s 0 none
    else elim (read_fixed header_sizeof get_header (take header_sizeof msg)) [
      | err e ↦ handled s 0 (some e)
      | ok header ↦ parse_body fn s msg header
    ]

pub record PackMsgArgs : Type 0 where
  pub seq : ℤ
  pub cmd : ℤ
  pub flag : ℤ
  pub payload : Bytes

-- `int32(len(arg.Payload))` wraps.
abbrev pub header_of : PackMsgArgs → Header
header_of arg = record {
  seq = arg.seq;
  cmd = arg.cmd;
  flag = arg.flag;
  len = int32 (length arg.payload % 2 ^ 32);
}

unfoldable pub pack_msg : PackMsgArgs → Bytes
unfolding put_header
pack_msg arg = put_header (header_of arg) ++ arg.payload
