-- ===== src/Prelude/Memory.antt =====
-- Byte arrays as the C++ code handles them: `memcpy` into and out of an array, NUL-terminated
-- text, and the little-endian layout of integers. A byte is a number below 256.
use Prim.Native.Nat.{ℕ, zero, suc, ◌+◌, ◌-◌, ◌*◌, ◌/◌, ◌%◌, ◌^◌, ◌≤◌, ◌<◌}
use mathlib.Core.Path.{◌≡◌, refl, ap}
use mathlib.Core.Logic.{◌≢◌, ◌↔◌}
use mathlib.Core.Bool.{Bool, true, false, ◌&&◌}
use mathlib.Core.List.{List, [], ◌∷◌, ◌++◌, append-nil}
use mathlib.Core.Option.{Option, none, some}
use native.Mathlib.Omega.{arith}
use native.Mathlib.Nat.{pow-suc}
use unix_ipc.Prelude.Tests.{leb, le→leb, ◌==◌, if◌then◌else◌}
use unix_ipc.Prelude.Lists.{
  length, take, drop, length-append, length-take, length-drop, take_all, drop_all,
  take-length-append, drop-length-append, drop-append_of_le,
}

abbrev pub Bytes : Type 0
Bytes = List ℕ

-- `memcpy(dst + offset, src, n)` with `n` the length of `src`; `none` is a write past the end.
unfoldable pub store_at : Bytes → ℕ → Bytes → Option Bytes
store_at dst offset src =
    if leb (offset + length src) (length dst)
    then some (take offset dst ++ (src ++ drop (offset + length src) dst))
    else none

-- `memcpy(dst, src + offset, n)`: the bytes read; `none` is a read past the end.
unfoldable pub load_at : Bytes → ℕ → ℕ → Option Bytes
load_at src offset n =
    if leb (offset + n) (length src) then some (take n (drop offset src)) else none

-- What `std::string(p)` and `strlen(p)` take from memory: the bytes before the first NUL.
-- `none`: there is no NUL in the memory that is given.
abbrev pub c_string : Bytes → Option Bytes
c_string [] = none
c_string (x ∷ xs) =
    if x == 0 then some [] else elim (c_string xs) [ none ↦ none | some s ↦ some (x ∷ s) ]

-- The bytes of `v` as an unsigned integer of `k` bytes, the lowest first (x86-64).
abbrev pub le_bytes : ℕ → ℕ → Bytes
le_bytes zero v = []
le_bytes (suc k) v = (v % 256) ∷ le_bytes k (v / 256)

abbrev pub of_le : Bytes → ℕ
of_le [] = 0
of_le (x ∷ xs) = x + 256 * of_le xs

-- No byte is NUL.
abbrev pub NoNul : Bytes → Type 0
NoNul [] = Unit {0}
NoNul (x ∷ xs) = (x ≢ 0) × NoNul xs

pub length-le_bytes : (k v : ℕ) → length (le_bytes k v) ≡ k
length-le_bytes zero v = refl
length-le_bytes (suc k) v = ap suc (length-le_bytes k (v / 256))

-- Adding a prefix without a NUL leaves the end of the text where it is.
pub c_string-append :
    (xs ys s : Bytes) → NoNul xs → c_string ys ≡ some s → c_string (xs ++ ys) ≡ some (xs ++ s)
c_string-append [] ys s h e = e
c_string-append (x ∷ xs) ys s h e = ground (arith, c_string-append xs ys s h.1 e)

high : (k v : ℕ) → v < 256 ^ suc k → v / 256 < 256 ^ k
high k v h = let e : 256 ^ suc k ≡ 256 ^ k * 256 = pow-suc _ _ in omega arith

-- An integer that fits its bytes is read back.
pub of_le-le_bytes : (k v : ℕ) → v < 256 ^ k → of_le (le_bytes k v) ≡ v
of_le-le_bytes zero v h = omega arith
of_le-le_bytes (suc k) v h = omega (arith, of_le-le_bytes k (v / 256) (high k v h))

offset-length : (n : ℕ) (xs zs : Bytes) → length xs ≡ n → n + length zs - length xs ≡ length zs
offset-length n xs zs e = omega arith

-- A `memcpy` that begins where `xs` ends.
pub store_at-append :
    (n : ℕ) (xs ys zs : Bytes)
    → length xs ≡ n
    → length zs ≤ length ys
    → store_at (xs ++ ys) n zs ≡ some (xs ++ (zs ++ drop (length zs) ys))
unfolding store_at
store_at-append n xs ys zs e h =
    rw (le→leb (n + length zs) (length (xs ++ ys)) (omega (arith, length-append xs ys))) (
      rw (
        take-length-append n xs ys e,
        drop-append_of_le (n + length zs) xs ys (omega arith),
        offset-length n xs zs e,
      ))

pub load_at-append :
    (n k : ℕ) (xs zs ys : Bytes)
    → length xs ≡ n
    → length zs ≡ k
    → load_at (xs ++ (zs ++ ys)) n k ≡ some zs
unfolding load_at
load_at-append n k xs zs ys e f =
    rw
      (le→leb (n + k) (length (xs ++ (zs ++ ys)))
        (omega (arith, length-append xs (zs ++ ys), length-append zs ys)))
      (rw (drop-length-append n xs (zs ++ ys) e, take-length-append k zs ys f))

pub store_at_overflow :
    (dst : Bytes) (offset : ℕ) (src : Bytes)
    → length dst < offset + length src
    → store_at dst offset src ≡ none
unfolding store_at
store_at_overflow dst offset src h = ground arith

-- A `memcpy` into an array leaves its length.
pub store_at-length :
    (dst : Bytes) (offset : ℕ) (src out : Bytes)
    → store_at dst offset src ≡ some out
    → length out ≡ length dst
unfolding store_at
store_at-length dst offset src out e = ground (
  arith,
  length-append (take offset dst) (src ++ drop (offset + length src) dst),
  length-append src (drop (offset + length src) dst),
  length-take offset dst,
  length-drop (offset + length src) dst,
)

-- A buffer after the system has put bytes at its start, never more than it holds.
unfoldable pub fill : Bytes → Bytes → Bytes
fill buffer bs = take (length buffer) bs ++ drop (length bs) buffer

pub fill_all : (buffer bs : Bytes) → length bs ≡ length buffer → fill buffer bs ≡ bs
unfolding fill
fill_all buffer bs e = rw (
  take_all (length buffer) bs (omega arith),
  drop_all (length bs) buffer (omega arith),
  append-nil,
)

pub length-fill : (buffer bs : Bytes) → length (fill buffer bs) ≡ length buffer
unfolding fill
length-fill buffer bs = omega (
  arith,
  length-append (take (length buffer) bs) (drop (length bs) buffer),
  length-take (length buffer) bs,
  length-drop (length bs) buffer,
)

pub fill-nil : (buffer : Bytes) → fill buffer [] ≡ buffer
unfolding fill
fill-nil buffer = rw (take_all {A = ℕ} (length buffer) [] (omega arith))

pub c_string-NoNul : (text : Bytes) → NoNul text → c_string text ≡ none
c_string-NoNul [] n = refl
c_string-NoNul (x ∷ xs) n = ground (arith, c_string-NoNul xs n.1)

-- `==` of two `std::string`s.
abbrev pub bytes_eq : Bytes → Bytes → Bool
bytes_eq [] [] = true
bytes_eq [] (y ∷ ys) = false
bytes_eq (x ∷ xs) [] = false
bytes_eq (x ∷ xs) (y ∷ ys) = (x == y) && bytes_eq xs ys

pub bytes_eq_iff : (xs ys : Bytes) → (bytes_eq xs ys ≡ true) ↔ (xs ≡ ys)
bytes_eq_iff [] [] = ground arith
bytes_eq_iff [] (y ∷ ys) = ground arith
bytes_eq_iff (x ∷ xs) [] = ground arith
bytes_eq_iff (x ∷ xs) (y ∷ ys) = ground (arith, bytes_eq_iff xs ys)
