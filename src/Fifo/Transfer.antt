-- ===== src/Fifo/Transfer.antt =====
-- Packages into and out of the program's buffers: `operator<<` of fifo/echo_fifo_server_client.
use unix_ipc.Prelude.{
  ℕ, ◌+◌, ◌≤◌, ◌≡◌, refl, ap, ◌∙◌, some, Bytes, [], ◌∷◌, ◌++◌, List, arith, length, drop, replicate,
  c_string, NoNul, length-append, length-drop, length-replicate, append-nil,
}
use unix_ipc.Sys.{Call, allocates, Os, ok, out_of_bounds, Prog, or_fault, call, ◌>>=◌}
use unix_ipc.Fifo.Package.{Package, serialize, deserialize, empty_buffer}
use unix_ipc.Fifo.Package.RoundTrip.{layout, IsNamed, serialize_lem, deserialize_lem}
use unix_ipc.Prelude.{c_string-append}
use unix_ipc.Fifo.Files.{clear_buffer}

unfoldable pub pack : Package → Bytes → Prog Bytes
pack packet buffer = or_fault (serialize packet buffer) out_of_bounds

unfoldable pub unpack : Package → Bytes → Prog Package
unpack packet buffer = do
  block ← call allocates
  or_fault (deserialize block.bytes packet buffer) out_of_bounds

-- The buffer of 1024 bytes in which a package travels.
unfoldable pub wire : Package → Bytes
wire p = layout p (drop (12 + length p.data_) empty_buffer)

-- A package that the buffer holds and whose text ends where it should.
pub record Fits (p : Package) : Type 0 where
  pub named : IsNamed p.type_
  pub no_nul : NoNul p.data_
  pub short : length p.data_ ≤ 1012

pub length-empty_buffer : length empty_buffer ≡ 1024
unfolding empty_buffer
length-empty_buffer = length-replicate {A = ℕ} 1024 0

pub clear_buffer-empty : (b : Bytes) → length b ≡ 1024 → clear_buffer b ≡ empty_buffer
unfolding clear_buffer empty_buffer
clear_buffer-empty b e = ap (λ n. replicate n 0) e

length-layout :
    (p : Package) (rest : Bytes) → length (layout p rest) ≡ 12 + length p.data_ + length rest
length-layout p rest = omega (arith, length-append p.data_ rest)

pub length-wire : (p : Package) → Fits p → length (wire p) ≡ 1024
unfolding wire
length-wire p f = omega (
  arith,
  length-layout p (drop (12 + length p.data_) empty_buffer),
  length-drop (12 + length p.data_) empty_buffer,
  length-empty_buffer,
  f.short,
)

pub pack_lem :
    (p : Package) (os : Os) (h : List Call) → Fits p → pack p empty_buffer os h ≡ (ok (wire p), h)
unfolding pack wire
pack_lem p os h f = rw (serialize_lem p empty_buffer (omega (arith, length-empty_buffer, f.short)))

-- `heap` begins with a NUL
pub unpack_lem :
    (p q : Package) (heap : Bytes) (os : Os) (h : List Call)
    → Fits p
    → (os h allocates).bytes ≡ 0 ∷ heap
    → unpack q (wire p) os h ≡ (ok (record q { type_ = p.type_; data_ = p.data_ }), allocates ∷ h)
unfolding unpack wire
unpack_lem p q heap os h f e = rw (
  e,
  deserialize_lem (0 ∷ heap) (drop (12 + length p.data_) empty_buffer) p.data_ p q f.named
      (omega (arith, f.short)) text,
)
  where
    text : c_string (p.data_ ++ 0 ∷ heap) ≡ some p.data_
    text = c_string-append p.data_ (0 ∷ heap) [] f.no_nul refl ∙ ap some (append-nil p.data_)
