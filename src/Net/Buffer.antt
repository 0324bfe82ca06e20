-- ===== src/Net/Buffer.antt =====
-- pkg/xnet/buffer.go: spent bytes are gathered in `cache` and go back to the pool in full buffers.
-- `returned` lists the buffers that were handed to `sync.Pool.Put`, in order.
pub mod Laws
use gotu.Base.{
  ℕ, zero, suc, Bool, true, false, Option, none, some, List, [], ◌∷◌, ◌++◌, leb, length, take, drop,
}
use gotu.Wire.{Bytes}
use gotu.Net.Handler.{read_buffer_size}

pub record BufferPool : Type 0 where
  pub cache : Bytes
  pub returned : List Bytes

-- `bufferManager.newBufferPool`
unfoldable pub new_buffer_pool : BufferPool
new_buffer_pool = record { cache = []; returned = [] }

-- The loop of `put`; every round takes 1024 bytes, so the length of the cache is fuel enough.
unfoldable pub put_loop : ℕ → BufferPool → BufferPool
put_loop zero bp = bp
put_loop (suc fuel) bp = elim (leb read_buffer_size (length bp.cache)) [
  | false ↦ bp
  | true ↦ put_loop fuel (record bp {
    cache = drop read_buffer_size bp.cache;
    returned = bp.returned ++ (take read_buffer_size bp.cache ∷ []);
  })
]

unfoldable pub put : BufferPool → Bytes → BufferPool
put bp cache = put_loop (length (bp.cache ++ cache)) (record bp { cache = bp.cache ++ cache })

abbrev zeros : ℕ → Bytes
zeros zero = []
zeros (suc n) = 0 ∷ zeros n

-- `get`: the pool chooses one of the buffers that it holds, or makes a new one.
unfoldable pub get : Option Bytes → Bytes
get none = zeros read_buffer_size
get (some buf) = buf
