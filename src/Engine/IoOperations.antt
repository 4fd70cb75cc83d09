-- ===== src/Engine/IoOperations.antt =====
-- socket/external/engine/buffers/io_operations_api.cpp. `size_t` is unsigned, so the tests
-- `n < 0` never hold.
use unix_ipc.Prelude.{ℕ, Bytes, ℤ, to_size, ltb, if◌then◌else◌, take, store_at, replicate}
use unix_ipc.Sys.{
  reads, writes, read_failed, write_failed, out_of_bounds, Prog, pure, throw, or_fault, call,
  result_of, ◌>>=◌,
}

-- `ReadFrom(fd, buffer, size)`: the number returned, and the array behind `buffer` afterwards.
-- The system puts at most `size` bytes there.
unfoldable pub read_from : ℤ → Bytes → ℕ → Prog (ℕ × Bytes)
read_from fd buffer size = do
  r ← call (reads fd size)
  let n = to_size r.result
  filled ← or_fault (store_at buffer 0 (take size r.bytes)) out_of_bounds
  if ltb n 0 then throw read_failed else pure (n, filled)

unfoldable pub write_to : ℤ → Bytes → Prog ℕ
write_to fd bytes = do
  size ← result_of (writes fd bytes)
  let n = to_size size
  if ltb n 0 then throw write_failed else pure n

-- `ClearBuffer(buffer, size)`
unfoldable pub clear_buffer : Bytes → ℕ → Prog Bytes
clear_buffer buffer size = or_fault (store_at buffer 0 (replicate size 0)) out_of_bounds
