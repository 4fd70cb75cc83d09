-- ===== src/Fifo/Files.antt =====
-- The file functions that stand in each program under fifo/: they turn the result of a system
-- call into a descriptor or an exception. The flags `S_IRWXU` of `mkfifo` are left out.
use unix_ipc.Prelude.{
  ℕ, zero, suc, ◌<◌, ◌≡◌, ◌≢◌, Bytes, ℤ, pos, is_neg, to_size, List, [], ◌∷◌, length, replicate,
  ltb, ◌==◌, if◌then◌else◌, fill, fill-nil, arith, store_at,
}
use unix_ipc.Sys.{
  Call, OpenFlag, opens, makes_fifo, unlinks, reads, writes, closes, sleeps, Os, ok, throws,
  fifo_close, fifo_open, fifo_create, read_failed, write_failed, write_short, file_close, Error,
  out_of_bounds, Prog, pure, throw, or_fault, spent, skip, call, call_, result_of, ◌>>=◌, ◌>>◌,
}

unfoldable pub close_fifo : Bytes → Prog (Unit {0})
close_fifo name = do
  res ← result_of (unlinks name)
  if is_neg res then throw (fifo_close name) else skip

unfoldable pub open_file : Bytes → List OpenFlag → Prog ℤ
open_file name flags = do
  fd ← result_of (opens name flags)
  if is_neg fd then throw (fifo_open name) else pure fd

unfoldable pub create_fifo : Bytes → Prog ℤ
create_fifo name = do
  fifo ← result_of (makes_fifo name)
  if is_neg fifo then throw (fifo_create name) else pure fifo

unfoldable pub close_file : ℤ → Prog (Unit {0})
close_file fd = do res ← result_of (closes fd); if is_neg res then throw file_close else skip

-- `size` is a `size_t`, so the first test never holds. The fuel bounds the reads.
unfoldable pub read_from : ℕ → ℤ → Bytes → Prog Bytes
read_from zero fd buffer = spent
read_from (suc fuel) fd buffer = do
  r ← call (reads fd (length buffer))
  let filled = fill buffer r.bytes
  let again = call_ (sleeps 1) >> read_from fuel fd filled
  if ltb (to_size r.result) 0
      then throw read_failed
      else if to_size r.result == 0
      then again
      else pure filled

unfoldable pub write_to : ℤ → Bytes → Prog (Unit {0})
write_to fd buffer = do
  size ← result_of (writes fd buffer)
  if is_neg size
      then throw write_failed
      else if ltb (to_size size) (length buffer)
      then throw write_short
      else skip

-- `memcpy` of the whole text to the start of the buffer.
unfoldable pub copy_to_buffer : Bytes → Bytes → Prog Bytes
copy_to_buffer msg buffer = or_fault (store_at buffer 0 msg) out_of_bounds

unfoldable pub clear_buffer : Bytes → Bytes
clear_buffer buffer = replicate (length buffer) 0

-- The history after `k` rounds of a read that gives nothing and a pause.
abbrev pub waited : ℤ → ℕ → ℕ → List Call → List Call
waited fd n zero h = h
waited fd n (suc k) h = waited fd n k (sleeps 1 ∷ reads fd n ∷ h)

-- The first `k` reads find the pipe empty.
abbrev pub Silent : Os → ℤ → ℕ → ℕ → List Call → Type 0
Silent os fd n zero h = Unit {0}
Silent os fd n (suc k) h =
    ((os h (reads fd n)).result ≡ pos 0)
    × ((os h (reads fd n)).bytes ≡ [])
    × Silent os fd n k (sleeps 1 ∷ reads fd n ∷ h)

-- With more reads allowed than the pipe stays empty, `ReadFrom` returns the buffer with what the
-- first read that does not return 0 put into it, after one pause of a second for each that does; a
-- read that failed with -1 is such a read too, so its error is never noticed.
pub read_from_waits :
    (k fuel : ℕ) (fd : ℤ) (buffer : Bytes) (os : Os) (h : List Call)
    → k < fuel
    → Silent os fd (length buffer) k h
    → to_size (os (waited fd (length buffer) k h) (reads fd (length buffer))).result ≢ 0
    → read_from fuel fd buffer os h ≡ (
      ok (fill buffer (os (waited fd (length buffer) k h) (reads fd (length buffer))).bytes),
      reads fd (length buffer) ∷ waited fd (length buffer) k h,
    )
unfolding read_from
read_from_waits k zero fd buffer os h l s n = absurd (omega arith)
read_from_waits zero (suc fuel) fd buffer os h l s n = ground arith
read_from_waits (suc k) (suc fuel) fd buffer os h l s n =
    rw (s.0, s.1, fill-nil buffer)
      (read_from_waits k fuel fd buffer os (sleeps 1 ∷ reads fd (length buffer) ∷ h) (omega arith)
        s.2 n)

-- `ReadFrom` throws nothing, whatever `read` returns.
pub read_from-ne-throws :
    (fuel : ℕ) (fd : ℤ) (buffer : Bytes) (os : Os) (h : List Call) (e : Error)
    → (read_from fuel fd buffer os h).0 ≢ throws e
unfolding read_from
read_from-ne-throws zero fd buffer os h e p = cc
read_from-ne-throws (suc fuel) fd buffer os h e p = ground (
  arith,
  read_from-ne-throws fuel fd (fill buffer (os h (reads fd (length buffer))).bytes) os
      (sleeps 1 ∷ reads fd (length buffer) ∷ h) e,
)

pub write_to_lem :
    (fd : ℤ) (buffer : Bytes) (os : Os) (h : List Call)
    → write_to fd buffer os h ≡ (
      (if is_neg (os h (writes fd buffer)).result
          then throws write_failed
          else if ltb (to_size (os h (writes fd buffer)).result) (length buffer)
          then throws write_short
          else ok tt),
      writes fd buffer ∷ h,
    )
unfolding write_to
write_to_lem fd buffer os h = ground arith
