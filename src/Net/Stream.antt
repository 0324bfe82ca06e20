-- ===== src/Net/Stream.antt =====
-- pkg/xnet/tcp_socket.go: the read loop of a stream socket. The connection's reads are given as a
-- list of events; the callbacks and the pool are the program's.
pub mod Consume
pub mod Chunks
pub mod Frames
use gotu.Base.{
  ℕ, zero, suc, Bool, true, false, Option, none, some, List, [], ◌∷◌, ◌++◌, ltb, if◌then◌else◌,
  length, take, drop, Error,
}
use gotu.Wire.{Bytes}
use gotu.Net.Handler.{Handled, handled, panicked, OnHandlerOnce}
use gotu.Net.Buffer.{BufferPool, put}

-- The state of a read loop: the pool's view, the bytes not yet consumed, the application's state.
pub record Reader {ℓ} (S : Type ℓ) : Type ℓ where
  pub pool : BufferPool
  pub read_caches : Bytes
  pub state : S

-- How the inner loop ends: with the cache kept for the next read, with an error of the handler, in a
-- panic. `out_of_fuel` is no outcome of the code.
pub data Outcome {ℓ} (R : Type ℓ) : Type ℓ where
  kept : R → Outcome R
  failed : R → Error → Outcome R
  crashed : Outcome R
  out_of_fuel : Outcome R

-- The loop `for !isKeepCache`. A handler that claims more bytes than there are makes the slice
-- expression `readCaches[reqCount:]` panic.
unfoldable pub drain {ℓ} : {S : Type ℓ} → ℕ → OnHandlerOnce S → Reader S → Outcome (Reader S)
drain zero on_msg r = out_of_fuel
drain (suc fuel) on_msg r = elim (on_msg r.state r.read_caches) [
  | panicked ↦ crashed
  | handled s n (some e) ↦ failed (record r { state = s }) e
  | handled s zero none ↦ kept (record r { state = s })
  | handled s (suc n) none ↦ elim (ltb (length r.read_caches) (suc n)) [
    | true ↦ crashed
    | false ↦ drain fuel on_msg (record {
      pool = put r.pool (take (suc n) r.read_caches);
      read_caches = drop (suc n) r.read_caches;
      state = s;
    })
  ]
]

-- What the connection answers: a deadline that cannot be set, the end of the stream, an error, or
-- data, read into the buffer `buf` that the pool gave: `data` fills its front.
pub data Read : Type 0 where
  deadline_failed : Error → Read
  read_eof : Read
  read_failed : Error → Read
  chunk : (buf bytes : Bytes) → Read

-- How `readLoop` stands after the events: still reading, ended (with the error that it logs), or
-- panicked.
pub data Loop {ℓ} (R : Type ℓ) : Type ℓ where
  reading : R → Loop R
  ended : R → Option Error → Loop R
  died : Loop R

unfoldable pub receive {ℓ} : {S : Type ℓ} → Reader S → Bytes → Bytes → Reader S
receive r buf bytes = record r {
  pool = put r.pool (drop (length bytes) buf);
  read_caches = r.read_caches ++ bytes;
}

-- One turn for a chunk that was read; the cache's length bounds the rounds of the inner loop.
unfoldable pub turn {ℓ} :
    {S : Type ℓ} → OnHandlerOnce S → Reader S → Bytes → Bytes → Outcome (Reader S)
unfolding receive drain
turn on_msg r buf bytes = drain (suc (length (r.read_caches ++ bytes))) on_msg (receive r buf bytes)

unfoldable pub read_loop {ℓ} :
    {S : Type ℓ} → OnHandlerOnce S → Reader S → List Read → Loop (Reader S)
unfolding turn
read_loop on_msg r [] = reading r
read_loop on_msg r (deadline_failed e ∷ events) = ended r (some e)
read_loop on_msg r (read_eof ∷ events) = ended r none
read_loop on_msg r (read_failed e ∷ events) = ended r (some e)
read_loop on_msg r (chunk buf bytes ∷ events) = elim (turn on_msg r buf bytes) [
  | kept r' ↦ read_loop on_msg r' events
  | failed r' e ↦ ended r' (some e)
  | crashed ↦ died
  | out_of_fuel ↦ died
]
