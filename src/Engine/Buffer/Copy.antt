-- ===== src/Engine/Buffer/Copy.antt =====
-- The byte loop of `Buffer::copy` against one block copy, and reading back what was written.
use unix_ipc.Prelude.{
  ℕ, zero, suc, ◌+◌, ◌≤◌, ◌<◌, ◌≡◌, refl, Option, none, some, true, Bytes, [], ◌∷◌, ◌++◌, length,
  take, drop, leb, ◌&&◌, get_elem?, set, if◌then◌else◌, arith, List, Option-cases, inl, inr, ltb,
  Bool-cases, le→leb, length-take, length-append, take-length-append,
}
use Prim.Native.Nat.add
use unix_ipc.Sys.{Call, Os, ok, ◌>>=◌}
use unix_ipc.Engine.Buffer.{Buffer, int_limit, copy_byte, copy_from, copy, read, write}

ltb-suc : (i n : ℕ) → ltb (suc i) (suc n) ≡ ltb i n
ltb-suc i n = ground arith

-- The loop of `copy` with an index that does not overflow.
unfoldable byte_loop : ℕ → ℕ → Bytes → Bytes → Option Bytes
unfolding copy_byte
byte_loop zero i src dst = some dst
byte_loop (suc n) i src dst = elim (copy_byte src dst i) [
  | none ↦ none
  | some copied ↦ byte_loop n (i + 1) src copied
]

-- One round where both arrays have been passed up to the same place.
byte_loop-shift :
    (n i : ℕ) (x y : ℕ) (src dst : Bytes)
    → byte_loop n (suc i) (x ∷ src) (y ∷ dst)
      ≡ (elim (byte_loop n i src dst) [ none ↦ none | some d ↦ some (y ∷ d) ])
unfolding byte_loop
byte_loop-shift zero i x y src dst = refl
byte_loop-shift (suc n) i x y src dst = elim (Option-cases (get_elem? src i)) [
  | inl e ↦ rw (e, byte_loop)
  | inr (v, e) ↦ elim (Bool-cases (ltb i (length dst))) [
    | inl t ↦
        rw (e, byte_loop, ltb-suc i (length dst), t, add.suc)
          (byte_loop-shift n (i + 1) x y src (set dst i v))
    | inr t ↦ rw (e, byte_loop, ltb-suc i (length dst), t)
  ]
]

-- The loop copies a block, and runs into undefined behaviour where either array is shorter.
byte_loop_lem :
    (n : ℕ) (src dst : Bytes)
    → byte_loop n 0 src dst
      ≡ (if leb n (length src) && leb n (length dst) then some (take n src ++ drop n dst) else none)
unfolding byte_loop
byte_loop_lem zero src dst = ground arith
byte_loop_lem (suc n) [] dst = ground arith
byte_loop_lem (suc n) (x ∷ src) [] = ground arith
byte_loop_lem (suc n) (x ∷ src) (y ∷ dst) =
    ground (arith, byte_loop-shift n 0 x x src dst, byte_loop_lem n src dst)

-- The `int` index does not overflow as long as the loop ends below 2 ^ 31.
copy_from-byte_loop :
    (n i : ℕ) (src dst : Bytes)
    → i < int_limit
    → copy_from n i src dst ≡ (if ltb (i + n) int_limit then byte_loop n i src dst else none)
unfolding copy_from byte_loop
copy_from-byte_loop zero i src dst l = ground arith
copy_from-byte_loop (suc n) i src dst l = elim (Option-cases (get_elem? src i)) [
  | inl e ↦ rw (e, copy_from, byte_loop) (ground arith)
  | inr (v, e) ↦
      let later : i + 1 < int_limit
          → copy_from n (i + 1) src (set dst i v)
            ≡ (if ltb (i + 1 + n) int_limit then byte_loop n (i + 1) src (set dst i v) else none) =
        copy_from-byte_loop n (i + 1) src (set dst i v) in
      let same : i + suc n ≡ i + 1 + n = omega arith in
      rw (e, copy_from, byte_loop, same) (ground (arith, later))
]

-- The byte loop of `copy`, whose index is an `int`, replaces the first `size` bytes of the target
-- by those of the source, and runs into undefined behaviour exactly where one of the two is shorter
-- or `size` is at least 2 ^ 31.
pub copy_lem :
    (n : ℕ) (src dst : Bytes)
    → copy src dst n ≡ (
        if (leb n (length src) && leb n (length dst)) && ltb n int_limit
        then some (take n src ++ drop n dst)
        else none)
unfolding copy
copy_lem n src dst =
    ground (arith, copy_from-byte_loop n 0 src dst (omega arith), byte_loop_lem n src dst)

copy_ok :
    (n : ℕ) (src dst : Bytes)
    → n ≤ length src
    → n ≤ length dst
    → n < int_limit
    → copy src dst n ≡ some (take n src ++ drop n dst)
copy_ok n src dst p q l =
    let z : ltb n int_limit ≡ true = ground arith in
    rw (copy_lem n src dst, le→leb n (length src) p, le→leb n (length dst) q, z)

-- With the buffer's own array where `read` and `write` name `data()`, which their parameter hides
-- as they stand, bytes written to a buffer are read back, where both fit its capacity and the
-- caller's arrays and are fewer than 2 ^ 31, and `read` leaves the rest of its target.
pub read-write :
    (b : Buffer) (source target : Bytes) (size : ℕ) (os : Os) (h : List Call)
    → size ≤ b.capacity_
    → b.capacity_ ≤ length b.array
    → size ≤ length source
    → size ≤ length target
    → size < int_limit
    → (write b source size >>= λ w. read w target size) os h
      ≡ (ok (take size source ++ drop size target), h)
unfolding write read
read-write b source target size os h c a s t l =
    let k : length (take size source) ≡ size = omega (arith, length-take size source) in
    rw (
      le→leb size b.capacity_ c,
      copy_ok size source b.array s (omega arith) l,
      le→leb size b.capacity_ c,
      copy_ok size (take size source ++ drop size b.array) target
          (omega (arith, length-append (take size source) (drop size b.array))) t l,
      take-length-append size (take size source) (drop size b.array) k,
    )
