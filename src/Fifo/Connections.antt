-- ===== src/Fifo/Connections.antt =====
-- What the echo server does with its list of connections: which descriptor a package leads to,
-- and what is closed.
use unix_ipc.Prelude.{
  ℕ, suc, ◌≡◌, refl, ap, some, none, inl, inr, Bytes, ℤ, pos, negsuc, is_neg, List, [], ◌∷◌, arith,
  ==ℤ_iff, ◌==ℤ◌, Bool-cases, false, ◌++◌, ◌≢◌, if◌then◌else◌,
}
use unix_ipc.Sys.{Call, Os, ok, reads, closes, prints, allocates, gives, throws, file_close}
use unix_ipc.Fifo.Package.{
  Package, PackageType, message, new_connection, connection_success, connection_close, unnamed,
  default_package,
}
use unix_ipc.Fifo.Transfer.{wire, Fits, unpack_lem, length-wire}
use unix_ipc.Fifo.Files.{close_file}
use unix_ipc.Fifo.EchoServer.{accept, dispatch, find, erase, session_close, Connections}
use unix_ipc.Fifo.Session.Script.{server_read_whole, shown, shown_lem, IsEnumerator}

-- The server reads this package, and the memory behind the new block begins with a NUL.
pub record Arrives (os : Os) (h : List Call) (fd : ℤ) (p : Package) (heap : Bytes) : Type 0 where
  pub fits : Fits p
  pub known : IsEnumerator p.type_
  pub comes : os h (reads fd 1024) ≡ gives (wire p)
  pub clean : (os (prints (shown p.type_) ∷ reads fd 1024 ∷ h) allocates).bytes ≡ 0 ∷ heap

-- The calls that take a package in.
abbrev pub taken : ℤ → Package → List Call → List Call
taken fd p h = allocates ∷ prints (shown p.type_) ∷ reads fd 1024 ∷ h

module _ (p : Package) (server_fd : ℤ) (buffer : Bytes) (cs : Connections) (os : Os)
    (h : List Call) where
  dispatch_message :
      {fd : ℤ}
      → find cs p.fd_ ≡ some fd
      → dispatch message p server_fd buffer cs os h ≡ (ok (fd, cs), h)
  unfolding dispatch
  dispatch_message e = ground arith

  dispatch_other :
      (t : PackageType)
      → t ≢ message
      → t ≢ new_connection
      → dispatch t p server_fd buffer cs os h ≡ (ok (negsuc 0, cs), h)
  unfolding dispatch
  dispatch_other message n m = absurd (n refl)
  dispatch_other new_connection n m = absurd (m refl)
  dispatch_other connection_success n m = refl
  dispatch_other connection_close n m = refl
  dispatch_other (unnamed k) n m = refl

-- While descriptor 0 is listed, a message that arrives, of at most 1012 bytes without a NUL and
-- with a NUL behind the receiver's block, in `Accept` is taken to come from descriptor 0, whatever
-- descriptor its sender put into it.
pub accept_message :
    (tries : ℕ) (os : Os) (h : List Call) (server_fd fd : ℤ) (text heap : Bytes) (cs : Connections)
    → Arrives os h server_fd (record { type_ = message; data_ = text; fd_ = fd }) heap
    → find cs (pos 0) ≡ some (pos 0)
    → accept (suc tries) server_fd cs os h
      ≡ (ok (pos 0, cs), taken server_fd (record { type_ = message; data_ = text; fd_ = fd }) h)
unfolding accept
accept_message tries os h server_fd fd text heap cs a e =
    rw
      (
        server_read_whole tries server_fd _ _ os h (length-wire _ a.fits)
            (shown_lem message text fd tt) a.comes,
        unpack_lem _ default_package heap os _ a.fits a.clean,
      )
      (dispatch_message (record default_package { data_ = text }) server_fd [] cs os _ e)

-- Any package but a message and a request for a connection, of at most 1012 bytes without a NUL and
-- with a NUL behind the receiver's block, makes `Accept` return -1 and change nothing.
pub accept_other :
    (tries : ℕ) (os : Os) (h : List Call) (server_fd : ℤ) (p : Package) (heap : Bytes)
    (cs : Connections)
    → Arrives os h server_fd p heap
    → p.type_ ≢ message
    → p.type_ ≢ new_connection
    → accept (suc tries) server_fd cs os h ≡ (ok (negsuc 0, cs), taken server_fd p h)
unfolding accept
accept_other tries os h server_fd p heap cs a n m =
    rw
      (
        server_read_whole tries server_fd _ _ os h (length-wire _ a.fits)
            (shown_lem p.type_ p.data_ p.fd_ a.known) a.comes,
        unpack_lem _ default_package heap os _ a.fits a.clean,
      )
      (dispatch_other (record default_package { type_ = p.type_; data_ = p.data_ }) server_fd _ cs
        os _ p.type_ n m)

-- The list does not have this descriptor.
abbrev pub Without : ℤ → Connections → Type 0
Without fd [] = Unit {0}
Without fd (c ∷ cs) = (c ≢ fd) × Without fd cs

==ℤ_false : (c fd : ℤ) → c ≢ fd → (c ==ℤ fd) ≡ false
==ℤ_false c fd n = elim (Bool-cases (c ==ℤ fd)) [
  | inl e ↦ absurd (n ((==ℤ_iff c fd).0 e))
  | inr e ↦ e
]

find-Without : (fd : ℤ) (cs : Connections) → Without fd cs → find cs fd ≡ none
unfolding find
find-Without fd [] w = refl
find-Without fd (c ∷ cs) (n, w) = rw (==ℤ_false c fd n) (find-Without fd cs w)

find_first : (fd : ℤ) (cs ds : Connections) → Without fd cs → find (cs ++ fd ∷ ds) fd ≡ some fd
unfolding find
find_first fd [] ds w = rw ((==ℤ_iff fd fd).1 refl) refl
find_first fd (c ∷ cs) ds (n, w) = rw (==ℤ_false c fd n) (find_first fd cs ds w)

erase_first : (fd : ℤ) (cs ds : Connections) → Without fd cs → erase (cs ++ fd ∷ ds) fd ≡ cs ++ ds
unfolding erase
erase_first fd [] ds w = rw ((==ℤ_iff fd fd).1 refl) refl
erase_first fd (c ∷ cs) ds (n, w) = rw (==ℤ_false c fd n) (ap (◌∷◌ c) (erase_first fd cs ds w))

-- `SessionClose` makes no call and keeps the connections where the descriptor is not among them;
-- where it is, the first entry that has it goes, the others stay in their order, and the descriptor
-- is closed, once, whose failure is an exception.
pub session_close_lem :
    (fd : ℤ) (cs ds : Connections) (os : Os) (h : List Call)
    → Without fd cs
    → (session_close fd cs os h ≡ (ok cs, h))
      × (session_close fd (cs ++ fd ∷ ds) os h ≡ (
        (if is_neg (os h (closes fd)).result then throws file_close else ok (cs ++ ds)),
        closes fd ∷ h,
      ))
unfolding session_close close_file
session_close_lem fd cs ds os h w =
    let none_there = find-Without fd cs w in
    let first = find_first fd cs ds w in
    let others = erase_first fd cs ds w in
    (ground (arith, none_there), ground (arith, first, others))
