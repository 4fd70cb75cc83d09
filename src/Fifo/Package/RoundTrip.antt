-- ===== src/Fifo/Package/RoundTrip.antt =====
-- What `Package::serialize` leaves in a buffer, and what `Package::deserialize` makes of it.
use unix_ipc.Prelude.{
  ◌+◌, ◌^◌, ◌≤◌, ◌<◌, ◌≡◌, refl, sym, none, some, Bytes, [], ◌++◌, length, drop, arith, store_at,
  load_at, le_bytes, of_le, c_string, Option-cases, inl, inr, store_at-length, store_at_overflow,
  NoNul, length-le_bytes, length-append, length-drop, of_le-le_bytes, store_at-append,
  load_at-append, c_string-append, drop-drop, Bool-cases, leb→le, if◌then◌else◌, leb, append_assoc,
}
use unix_ipc.Fifo.Package.{
  ◌>>=◌, Package, PackageType, message, new_connection, connection_success, connection_close,
  unnamed, code, of_code, serialize, deserialize,
}

-- The layout that the two ends agree on.
abbrev pub layout : Package → Bytes → Bytes
layout p rest = le_bytes 4 (code p.type_) ++ (le_bytes 8 (length p.data_) ++ (p.data_ ++ rest))

store_three :
    (t s d buffer : Bytes)
    → length t ≡ 4
    → length s ≡ 8
    → 12 + length d ≤ length buffer
    → (do typed ← store_at buffer 0 t; sized ← store_at typed 4 s; store_at sized 12 d)
      ≡ some (t ++ (s ++ (d ++ drop (12 + length d) buffer)))
store_three t s d buffer et es h = rw (
  store_at-append 0 [] buffer t refl (omega arith),
  store_at-append 4 t (drop (length t) buffer) s et (omega (arith, length-drop (length t) buffer)),
  ← append_assoc t s (drop (length s) (drop (length t) buffer)),
  store_at-append 12 (t ++ s) (drop (length s) (drop (length t) buffer)) d
      (omega (arith, length-append t s))
      (omega
        (arith, length-drop (length s) (drop (length t) buffer), length-drop (length t) buffer)),
  append_assoc t s,
  drop-drop (length s) (length t) buffer,
  drop-drop (length d) (length t + length s) buffer,
  et,
  es,
)

pub serialize_lem :
    (p : Package) (buffer : Bytes)
    → 12 + length p.data_ ≤ length buffer
    → serialize p buffer ≡ some (layout p (drop (12 + length p.data_) buffer))
unfolding serialize
serialize_lem p buffer h =
    store_three (le_bytes 4 (code p.type_)) (le_bytes 8 (length p.data_)) p.data_ buffer
      (length-le_bytes 4 (code p.type_)) (length-le_bytes 8 (length p.data_)) h

store_three_overflow :
    (t s d buffer : Bytes)
    → length buffer < 12 + length d
    → (do typed ← store_at buffer 0 t; sized ← store_at typed 4 s; store_at sized 12 d) ≡ none
store_three_overflow t s d buffer h = elim (Option-cases (store_at buffer 0 t)) [
  | inl e ↦ rw e
  | inr (typed, e) ↦ rw e (elim (Option-cases (store_at typed 4 s)) [
    | inl f ↦ rw f
    | inr (sized, f) ↦ rw f (
        store_at_overflow sized 12 d
          (omega (arith, store_at-length buffer 0 t typed e, store_at-length typed 4 s sized f)))
  ])
]

serialize_overflow :
    (p : Package) (buffer : Bytes) → length buffer < 12 + length p.data_ → serialize p buffer ≡ none
unfolding serialize
serialize_overflow p buffer h =
    store_three_overflow (le_bytes 4 (code p.type_)) (le_bytes 8 (length p.data_)) p.data_ buffer h

-- A type that an `int` of 4 bytes holds.
abbrev pub IsNamed : PackageType → Type 0
IsNamed (unnamed n) = (3 < n) × (n < 2 ^ 32)
IsNamed _ = Unit {0}

of_code-code : (t : PackageType) → IsNamed t → of_code (of_le (le_bytes 4 (code t))) ≡ t
unfolding code of_code
of_code-code message h = refl
of_code-code new_connection h = refl
of_code-code connection_success h = refl
of_code-code connection_close h = refl
of_code-code (unnamed n) h = rw (of_le-le_bytes 4 n h.1) (ground arith)

load_three :
    (t s d rest : Bytes)
    → length t ≡ 4
    → length s ≡ 8
    → length d ≡ of_le s
    → let b = t ++ (s ++ (d ++ rest)) in
      (load_at b 0 4 ≡ some t) × (load_at b 4 8 ≡ some s) × (load_at b 12 (of_le s) ≡ some d)
load_three t s d rest et es ed = (
  load_at-append 0 4 [] t (s ++ (d ++ rest)) refl et,
  load_at-append 4 8 t s (d ++ rest) et es,
  rw (← append_assoc t s (d ++ rest))
      (load_at-append 12 (of_le s) (t ++ s) d rest (omega (arith, length-append t s)) ed),
)

pub deserialize_lem :
    (heap rest text : Bytes) (p q : Package)
    → IsNamed p.type_
    → length p.data_ < 2 ^ 64
    → c_string (p.data_ ++ heap) ≡ some text
    → deserialize heap q (layout p rest) ≡ some (record q { type_ = p.type_; data_ = text })
unfolding deserialize
deserialize_lem heap rest text p q t l e =
    let (a, b, c) =
      load_three (le_bytes 4 (code p.type_)) (le_bytes 8 (length p.data_)) p.data_ rest
        (length-le_bytes 4 (code p.type_)) (length-le_bytes 8 (length p.data_))
        (sym (of_le-le_bytes 8 (length p.data_) l)) in
    rw (a, b, c, e, of_code-code p.type_ t)

-- `serialize` writes four bytes of type, eight of length and the data, and leaves the rest of the
-- buffer; where these are more than the buffer holds it writes past its end.
pub serialize-layout :
    (p : Package) (buffer : Bytes)
    → serialize p buffer ≡ (
        if leb (12 + length p.data_) (length buffer)
        then some (layout p (drop (12 + length p.data_) buffer))
        else none)
serialize-layout p buffer = elim (Bool-cases (leb (12 + length p.data_) (length buffer))) [
  | inl e ↦ rw e (serialize_lem p buffer (leb→le _ _ e))
  | inr e ↦ rw e (serialize_overflow p buffer (ground arith))
]

-- A package with a named type and NUL-free data that fits the buffer arrives with its type, and
-- with its data followed by the text that stands in the memory behind the receiver's block; its
-- descriptor is not sent.
pub deserialize-serialize :
    (heap tail buffer : Bytes) (p q : Package)
    → IsNamed p.type_
    → NoNul p.data_
    → 12 + length p.data_ ≤ length buffer
    → length buffer < 2 ^ 64
    → c_string heap ≡ some tail
    → (serialize p buffer >>= deserialize heap q)
      ≡ some (record q { type_ = p.type_; data_ = p.data_ ++ tail })
deserialize-serialize heap tail buffer p q t n h l e = rw (serialize_lem p buffer h) (
    deserialize_lem heap (drop (12 + length p.data_) buffer) (p.data_ ++ tail) p q t (omega arith)
      (c_string-append p.data_ heap tail n e))
