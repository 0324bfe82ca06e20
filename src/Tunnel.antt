-- ===== src/Tunnel.antt =====
-- cmd/udp_tun/internal/handlers: the UDP tunnel. codec.go here; statistics and the tunnel's two ends
-- in the children. `now` is the clock that the source reads, in milliseconds.
pub mod Snmp
pub mod Registry
mod Examples
use gotu.Base.{ℕ, List, ◌++◌, ℤ, length, drop, take, ltb, if◌then◌else◌, not_enough}
use gotu.Wire.{Bytes, Result, ok, err, put_int64, get_int64, read_fixed}
use gotu.Common.{◌-64◌}

abbrev pub header_sizeof : ℕ
header_sizeof = 8

unfoldable pub pack : ℤ → Bytes → Bytes
pack now msg = put_int64 now ++ msg

unfoldable pub unpack : ℤ → Bytes → Result (ℤ × Bytes)
unfolding read_fixed
unpack now msg =
    if ltb (length msg) header_sizeof
    then err (not_enough (length msg))
    else elim (read_fixed header_sizeof get_int64 (take header_sizeof msg)) [
      | err e ↦ err e
      | ok sent ↦ ok (now -64 sent, drop header_sizeof msg)
    ]
