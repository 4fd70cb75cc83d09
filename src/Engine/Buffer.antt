-- ===== src/Engine/Buffer.antt =====
-- socket/external/engine/buffers: `io::Buffer` and its two kinds. A buffer is its fields with
-- the array that `data()` gives. `assert` is taken as compiled in.
pub mod Copy
pub mod Size
use unix_ipc.Prelude.{
  ℕ, zero, suc, ◌+◌, ◌≡◌, Bool, true, false, Option, none, some, Bytes, List, [], ◌∷◌, length, leb,
  replicate, get_elem?, set, ltb, store_at, if◌then◌else◌,
}
use unix_ipc.Sys.{out_of_bounds, failed_assert, Prog, pure, fault, or_fault, ◌>>=◌}

pub record Buffer : Type 0 where
  pub size_ : ℕ
  pub capacity_ : ℕ
  pub is_good_ : Bool
  pub array : Bytes

-- `Buffer::Buffer`, of a kind whose `data()` is this array.
abbrev pub make : Bytes → Buffer
make array = record { size_ = 0; capacity_ = 0; is_good_ = true; array = array }

abbrev pub size : Buffer → ℕ
size b = b.size_

abbrev pub capacity : Buffer → ℕ
capacity b = b.capacity_

abbrev pub is_good : Buffer → Bool
is_good b = b.is_good_

abbrev pub set_size : Buffer → ℕ → Buffer
set_size b n = record b { size_ = n }

abbrev pub set_capacity : Buffer → ℕ → Buffer
set_capacity b n = record b { capacity_ = n }

abbrev pub set_is_good : Buffer → Bool → Buffer
set_is_good b good = record b { is_good_ = good }

-- `StaticBuffer<n>`: its constructor sets size and capacity.
unfoldable pub static_buffer : ℕ → Buffer
static_buffer n = set_capacity (set_size (make (replicate n 0)) 0) n

-- `DynamicBuffer(n)`: the fields are those of `Buffer::Buffer`.
unfoldable pub dynamic_buffer : ℕ → Buffer
dynamic_buffer n = make (replicate n 0)

-- `memset(data(), 0, capacity())`
unfoldable pub clear : Buffer → Prog Buffer
clear b = do
  cleared ← or_fault (store_at b.array 0 (replicate (capacity b) 0)) out_of_bounds
  pure (record b { array = cleared })

-- `dst[i] = src[i]`; `none` is an access outside an array.
unfoldable pub copy_byte : Bytes → Bytes → ℕ → Option Bytes
copy_byte src dst i = elim (get_elem? src i) [
  | none ↦ none
  | some x ↦ if ltb i (length dst) then some (set dst i x) else none
]

-- 2 ^ 31, which the index of the loop, an `int`, cannot hold.
abbrev pub int_limit : ℕ
int_limit = 2147483648

-- The rounds of the loop from `i` on; `none` is also an overflow of the index by `++i`.
unfoldable pub copy_from : ℕ → ℕ → Bytes → Bytes → Option Bytes
unfolding copy_byte
copy_from zero i src dst = some dst
copy_from (suc n) i src dst = elim (copy_byte src dst i) [
  | none ↦ none
  | some copied ↦
      let later = copy_from n (i + 1) src copied in if ltb (i + 1) int_limit then later else none
]

-- The destination after `copy(src, dst, n)`, which returns `n`.
unfoldable pub copy : Bytes → Bytes → ℕ → Option Bytes
unfolding copy_from
copy src dst n = copy_from n 0 src dst

-- The caller's array after the call. (`data()` is the buffer's, though the parameter hides it.)
unfoldable pub read : Buffer → Bytes → ℕ → Prog Bytes
read b target n =
    if leb n (capacity b)
    then or_fault (copy b.array target n) out_of_bounds
    else fault failed_assert

unfoldable pub write : Buffer → Bytes → ℕ → Prog Buffer
write b source n = if leb n (capacity b) then written else fault failed_assert
  where
    written : Prog Buffer
    written = do
      filled ← or_fault (copy source b.array n) out_of_bounds
      pure (record b { array = filled })
