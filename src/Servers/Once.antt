-- ===== src/Servers/Once.antt =====
-- Systems in which `accept` succeeds at one point of a run only, with a descriptor that `socket`
-- does not give.
use unix_ipc.Prelude.{
  ℕ, ◌≡◌, ◌≢◌, ◌≤◌, refl, ap, false, ℤ, pos, negsuc, List, [], ◌∷◌, length, arith,
}
use unix_ipc.Sys.{
  Call, Os, opens, makes_fifo, unlinks, stats, reads, writes, closes, sleeps, makes_socket, binds,
  connects, listens, accepts, polls, selects, receives, sends, parses_address, formats_address,
  reads_word, allocates, prints,
}
use unix_ipc.Servers.Request.{has}
use unix_ipc.Servers.Descriptors.{opened, gained, GivesFresh, has-remove}

has-gained :
    (fd : ℕ) (z : ℤ) (fds : List ℕ)
    → z ≢ pos fd
    → has fd fds ≡ false
    → has fd (gained z fds) ≡ false
has-gained fd (pos n) fds a e = let b : n ≢ fd = λ q. a (ap pos q) in ground (arith, b)
has-gained fd (negsuc n) fds a e = e

module _ (os : Os) (fd at_length : ℕ)
    (accepting : (h : List Call) (l : ℤ) (n : ℕ)
      → (os h (accepts l)).result ≡ pos n
      → (n ≡ fd) × (length h ≡ at_length))
    (making : (h : List Call) (f t : ℕ) → (os h (makes_socket f t)).result ≢ pos fd) where
  not_yet : (h : List Call) → length h ≤ at_length → has fd (opened os h) ≡ false
  unfolding opened
  not_yet [] l = refl
  not_yet (accepts n ∷ h) l =
      has-gained fd (os h (accepts n)).result (opened os h)
        (λ e. let q = (accepting h n fd e).1 in absurd (omega (arith, l, q)))
        (not_yet h (omega (arith, l)))
  not_yet (makes_socket f t ∷ h) l =
      has-gained fd (os h (makes_socket f t)).result (opened os h) (making h f t)
        (not_yet h (omega (arith, l)))
  not_yet (closes (pos n) ∷ h) l =
      ground (arith, has-remove fd n (opened os h), not_yet h (omega (arith, l)))
  not_yet (closes (negsuc n) ∷ h) l = not_yet h (omega (arith, l))
  not_yet (opens a b ∷ h) l = not_yet h (omega (arith, l))
  not_yet (makes_fifo a ∷ h) l = not_yet h (omega (arith, l))
  not_yet (unlinks a ∷ h) l = not_yet h (omega (arith, l))
  not_yet (stats a ∷ h) l = not_yet h (omega (arith, l))
  not_yet (reads a b ∷ h) l = not_yet h (omega (arith, l))
  not_yet (writes a b ∷ h) l = not_yet h (omega (arith, l))
  not_yet (sleeps a ∷ h) l = not_yet h (omega (arith, l))
  not_yet (binds a b ∷ h) l = not_yet h (omega (arith, l))
  not_yet (connects a b ∷ h) l = not_yet h (omega (arith, l))
  not_yet (listens a b ∷ h) l = not_yet h (omega (arith, l))
  not_yet (polls a ∷ h) l = not_yet h (omega (arith, l))
  not_yet (selects a b ∷ h) l = not_yet h (omega (arith, l))
  not_yet (receives a b ∷ h) l = not_yet h (omega (arith, l))
  not_yet (sends a b c ∷ h) l = not_yet h (omega (arith, l))
  not_yet (parses_address a ∷ h) l = not_yet h (omega (arith, l))
  not_yet (formats_address a ∷ h) l = not_yet h (omega (arith, l))
  not_yet (reads_word ∷ h) l = not_yet h (omega (arith, l))
  not_yet (allocates ∷ h) l = not_yet h (omega (arith, l))
  not_yet (prints a ∷ h) l = not_yet h (omega (arith, l))

  pub once-GivesFresh : GivesFresh os
  once-GivesFresh h l n e = let (p, q) = accepting h l n e in rw p (not_yet h (omega (arith, q)))
