-- ===== src/Engine/Buffer/Size.antt =====
-- What the operations of a buffer never change.
use unix_ipc.Prelude.{
  ℕ, zero, suc, ◌≡◌, refl, ◌∙◌, some, inl, inr, Bytes, List, length, arith, length-replicate,
  store_at, store_at-length, replicate, Option-cases, take, drop, length-append, length-take,
  length-drop,
}
use unix_ipc.Sys.{Call, Os, ok, faults, failed_assert}
use unix_ipc.Engine.Buffer.{Buffer, static_buffer, dynamic_buffer, clear, copy, read, write}
use unix_ipc.Engine.Buffer.Copy.{copy_lem}

-- A successful call of an operation that changes a buffer.
pub data Step (b c : Buffer) : Type 0 where
  cleared : (os : Os) (h : List Call) → clear b os h ≡ (ok c, h) → Step b c
  wrote :
      (source : Bytes) (size : ℕ) (os : Os) (h : List Call)
      → write b source size os h ≡ (ok c, h)
      → Step b c

pub data Reach (b : Buffer) : Buffer → Type 0 where
  here : Reach b b
  next : {c d : Buffer} → Reach b c → Step c d → Reach b d

pub record Same (b c : Buffer) : Type 0 where
  pub sizes : c.size_ ≡ b.size_
  pub capacities : c.capacity_ ≡ b.capacity_
  pub flags : c.is_good_ ≡ b.is_good_
  pub lengths : length c.array ≡ length b.array

copy-length :
    (src dst : Bytes) (n : ℕ) (out : Bytes) → copy src dst n ≡ some out → length out ≡ length dst
copy-length src dst n out e = ground (
  arith,
  copy_lem n src dst,
  length-append (take n src) (drop n dst),
  length-take n src,
  length-drop n dst,
)

clear-Same : (b c : Buffer) (os : Os) (h : List Call) → clear b os h ≡ (ok c, h) → Same b c
unfolding clear
clear-Same b c os h e = elim (Option-cases (store_at b.array 0 (replicate b.capacity_ 0))) [
  | inl n ↦ ground arith
  | inr (a, p) ↦ ground (arith, store_at-length b.array 0 (replicate b.capacity_ 0) a p)
]

write-Same :
    (b c : Buffer) (source : Bytes) (size : ℕ) (os : Os) (h : List Call)
    → write b source size os h ≡ (ok c, h)
    → Same b c
unfolding write
write-Same b c source size os h e = elim (Option-cases (copy source b.array size)) [
  | inl n ↦ ground arith
  | inr (a, p) ↦ ground (arith, copy-length source b.array size a p)
]

Step-Same : {b c : Buffer} → Step b c → Same b c
Step-Same {b} {c} (cleared os h e) = clear-Same b c os h e
Step-Same {b} {c} (wrote source size os h e) = write-Same b c source size os h e

-- No operation of a buffer changes its size, its capacity, its flag or the length of its array.
pub Reach-Same : {b c : Buffer} → Reach b c → Same b c
Reach-Same here = record { sizes = refl; capacities = refl; flags = refl; lengths = refl }
Reach-Same (next r s) = record {
  sizes = (Step-Same s).sizes ∙ (Reach-Same r).sizes;
  capacities = (Step-Same s).capacities ∙ (Reach-Same r).capacities;
  flags = (Step-Same s).flags ∙ (Reach-Same r).flags;
  lengths = (Step-Same s).lengths ∙ (Reach-Same r).lengths;
}

-- After any successful writes and clears a static buffer has size 0, its capacity, and an array of
-- that length.
pub static_shape :
    (n : ℕ) {b : Buffer}
    → Reach (static_buffer n) b
    → (b.size_ ≡ 0) × (b.capacity_ ≡ n) × (length b.array ≡ n)
unfolding static_buffer
static_shape n r =
    let s = Reach-Same r in (s.sizes, s.capacities, s.lengths ∙ length-replicate {A = ℕ} n 0)

store_none : (n : ℕ) (a : Bytes) → n ≡ 0 → store_at a 0 (replicate n 0) ≡ some a
unfolding store_at
store_none zero a e = ground arith
store_none (suc n) a e = absurd (omega arith)

-- Every read and write of at least one byte on a dynamic buffer fails its assertion, and `clear`
-- leaves it as it is.
pub dynamic_unusable :
    (n k : ℕ) {b : Buffer} (other : Bytes) (os : Os) (h : List Call)
    → Reach (dynamic_buffer n) b
    → (write b other (suc k) os h ≡ (faults failed_assert, h))
      × (read b other (suc k) os h ≡ (faults failed_assert, h))
      × (clear b os h ≡ (ok b, h))
unfolding dynamic_buffer write read clear
dynamic_unusable n k {b} other os h r =
    let e : b.capacity_ ≡ 0 = (Reach-Same r).capacities in
    (rw e (ground arith), rw e (ground arith), rw (store_none b.capacity_ b.array e))
