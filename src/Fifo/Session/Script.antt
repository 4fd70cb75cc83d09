-- ===== src/Fifo/Session/Script.antt =====
-- The packages of a session, and the replies of the system in it.
use unix_ipc.Prelude.{
  ℕ, suc, ◌≡◌, refl, sym, ◌∙◌, some, Bytes, ℤ, pos, List, [], ◌∷◌, length, c_string, NoNul, ◌≤◌,
  fill_all,
}
use unix_ipc.Sys.{Call, Reply, Os, ok, reads, writes, prints, returns, gives}
use unix_ipc.Fifo.Package.{
  PackageType, message, new_connection, connection_success, connection_close, unnamed, empty_buffer,
  code,
}
use unix_ipc.Fifo.Transfer.{wire, Fits, length-empty_buffer}
use unix_ipc.Fifo.Files.{read_from, write_to}
use unix_ipc.Fifo.EchoServer

-- The memory behind a new block begins with a NUL.
abbrev pub behind : Bytes → Reply
behind heap = record { result = pos 0; bytes = 0 ∷ heap; revents = []; ready = [] }

-- All 1024 bytes were written.
abbrev pub written : Reply
written = returns (pos 1024)

-- What `std::cout << buffer.data()` shows of a buffer with a package of this type: its first bytes.
abbrev pub shown : PackageType → Bytes
shown message = []
shown new_connection = 1 ∷ []
shown connection_success = 2 ∷ []
shown connection_close = 3 ∷ []
shown (unnamed n) = []

abbrev pub IsEnumerator : PackageType → Type 0
IsEnumerator (unnamed n) = ⊥
IsEnumerator _ = Unit {0}

pub shown_lem :
    (t : PackageType) (d : Bytes) (fd : ℤ)
    → IsEnumerator t
    → c_string (wire (record { type_ = t; data_ = d; fd_ = fd })) ≡ some (shown t)
unfolding wire code
shown_lem message d fd n = refl
shown_lem new_connection d fd n = refl
shown_lem connection_success d fd n = refl
shown_lem connection_close d fd n = refl
shown_lem (unnamed k) d fd n = absurd n

-- A read that gets a whole buffer.
pub read_whole :
    (fuel : ℕ) (fd : ℤ) (w : Bytes) (os : Os) (h : List Call)
    → length w ≡ 1024
    → os h (reads fd 1024) ≡ gives w
    → read_from (suc fuel) fd empty_buffer os h ≡ (ok w, reads fd 1024 ∷ h)
unfolding read_from
read_whole fuel fd w os h l e =
    rw (length-empty_buffer, e, l, fill_all empty_buffer w (l ∙ sym length-empty_buffer))

pub server_read_whole :
    (fuel : ℕ) (fd : ℤ) (w text : Bytes) (os : Os) (h : List Call)
    → length w ≡ 1024
    → c_string w ≡ some text
    → os h (reads fd 1024) ≡ gives w
    → EchoServer.read_from (suc fuel) fd empty_buffer os h ≡ (ok w, prints text ∷ reads fd 1024 ∷ h)
unfolding EchoServer.read_from
server_read_whole fuel fd w text os h l t e =
    rw (length-empty_buffer, e, l, fill_all empty_buffer w (l ∙ sym length-empty_buffer), t)

-- A write that takes the whole buffer.
pub write_whole :
    (fd : ℤ) (w : Bytes) (os : Os) (h : List Call)
    → length w ≡ 1024
    → os h (writes fd w) ≡ written
    → write_to fd w os h ≡ (ok tt, writes fd w ∷ h)
unfolding write_to
write_whole fd w os h l e = rw (e, l)

-- The packages of the protocol fit the buffer.
pub Fits-short :
    (t : PackageType) (d : Bytes) (fd : ℤ)
    → IsEnumerator t
    → NoNul d
    → length d ≤ 1012
    → Fits (record { type_ = t; data_ = d; fd_ = fd })
Fits-short message d fd e n l = record { named = tt; no_nul = n; short = l }
Fits-short new_connection d fd e n l = record { named = tt; no_nul = n; short = l }
Fits-short connection_success d fd e n l = record { named = tt; no_nul = n; short = l }
Fits-short connection_close d fd e n l = record { named = tt; no_nul = n; short = l }
Fits-short (unnamed k) d fd e n l = absurd e
