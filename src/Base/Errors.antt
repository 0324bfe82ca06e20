-- ===== src/Base/Errors.antt =====
-- Go's `error`, where it is not nil: a constructor for each message that the modelled code makes,
-- and `ext` for those that a callback or a library hands over.
use Prim.Native.Nat.{ℕ}
use Prim.Native.String.{String}
use gotu.Base.Int.{ℤ}

pub data Error : Type 0 where
  eof : Error  -- io.EOF
  short_read : Error  -- io.ErrUnexpectedEOF, of binary.Read
  sock_closed : Error  -- "sock already close", "session already close"
  msg_overflow : Error  -- "msg overflow", "session overflow"
  not_established : ℤ → Error  -- "state [%v] not established"
  inline_invalid : ℤ → ℤ → Error  -- "inline invalid %v cur %v"
  not_enough : ℕ → Error  -- "msg %v not enough %v"
  no_handler : ℤ → Error  -- "can not find handler[%d]"
  mode_invalid : ℤ → Error  -- "mode[%v] invalid[0|1|2]"
  mux_init_timeout : ℤ → Error  -- "mux init timeout %v"
  request_repeated : ℕ → Error  -- "sync request[%v] is repeated", "async request[%v] is repeated"
  handler_nil : Error  -- "handler is nil"
  actor_repeated : String → Error  -- "actor %v is repeated"
  actor_nil : String → Error  -- "actor[%v] is nil"
  request_mistyped : ℕ → ℕ → Error  -- "sync handler req[%v] not type %v"
  request_cancelled : Error  -- "cancel request"
  result_mistyped : ℕ → ℕ → Error  -- "result [%v] not type [%v]"
  ext : ℕ → Error
