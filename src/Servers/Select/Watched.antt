-- ===== src/Servers/Select/Watched.antt =====
-- What it is to keep track of descriptors, for the server over `select`, and what closing and
-- accepting a descriptor do to it.
use unix_ipc.Prelude.{
  ℕ, ◌≡◌, ◌≢◌, refl, sym, ap, ◌∙◌, true, false, not, ◌&&◌, ◌||◌, pos, List, [], ◌∷◌, ◌++◌,
  false≢true, ◌==◌, arith,
}
use unix_ipc.Sys.{Call, Os, closes, accepts}
use unix_ipc.Servers.Request.{has}
use unix_ipc.Servers.Descriptors.{
  opened, GivesFresh, Distinct, has-remove, has-append, append-Distinct,
}
use unix_ipc.Servers.Select.{State, fd_clr, erase}

pub record Tracks (os : Os) (listenfd : ℕ) (s : State) (h : List Call) : Type 0 where
  pub watched : (fd : ℕ) → has fd s.allset ≡ ((listenfd == fd) || has fd s.clients)
  pub open_fds : (fd : ℕ) → has fd (opened os h) ≡ ((listenfd == fd) || has fd s.clients)
  pub distinct : Distinct (listenfd ∷ s.clients)

pub has-fd_clr : (x fd : ℕ) (xs : List ℕ) → has x (fd_clr fd xs) ≡ (has x xs && not (x == fd))
unfolding fd_clr
has-fd_clr x fd [] = refl
has-fd_clr x fd (y ∷ xs) = ground (arith, has-fd_clr x fd xs)

pub has-erase :
    (x fd : ℕ) (xs : List ℕ) → Distinct xs → has x (erase fd xs) ≡ (has x xs && not (x == fd))
unfolding erase
has-erase x fd [] d = refl
has-erase x fd (y ∷ xs) d = ground (arith, has-erase x fd xs d.1)

pub erase-Distinct : (fd : ℕ) (xs : List ℕ) → Distinct xs → Distinct (erase fd xs)
unfolding erase
erase-Distinct fd [] d = tt
erase-Distinct fd (y ∷ xs) d = ground (arith, erase-Distinct fd xs d.1, has-erase y fd xs d.1)

-- A descriptor of a client is not the listening one.
pub client-ne-listenfd :
    (listenfd fd : ℕ) (cs : List ℕ) → has listenfd cs ≡ false → has fd cs ≡ true → listenfd ≢ fd
client-ne-listenfd listenfd fd cs n y e = false≢true (sym n ∙ ap (λ x. has x cs) e ∙ y)

module _ (os : Os) (listenfd : ℕ) where
  -- A state with the same clients and the same set.
  pub Tracks-same :
      (s s' : State) (h : List Call)
      → s'.clients ≡ s.clients
      → s'.allset ≡ s.allset
      → Tracks os listenfd s h
      → Tracks os listenfd s' h
  Tracks-same s s' h p q t = record {
    watched = λ fd. rw (p, q) (t.watched fd);
    open_fds = λ fd. rw p (t.open_fds fd);
    distinct = rw p t.distinct;
  }

  abbrev pub dropped : ℕ → State → State
  dropped fd s = record s { clients = erase fd s.clients; allset = fd_clr fd s.allset }

  pub dropped-Tracks :
      (fd : ℕ) (s : State) (h : List Call)
      → has fd s.clients ≡ true
      → Tracks os listenfd s h
      → Tracks os listenfd (dropped fd s) (closes (pos fd) ∷ h)
  unfolding opened
  dropped-Tracks fd s h y t =
      let apart = client-ne-listenfd listenfd fd s.clients t.distinct.0 y in
      record {
        watched = λ x. ground (
          arith,
          apart,
          has-fd_clr x fd s.allset,
          has-erase x fd s.clients t.distinct.1,
          t.watched x,
        );
        open_fds = λ x. ground (
          arith,
          apart,
          has-remove x fd (opened os h),
          has-erase x fd s.clients t.distinct.1,
          t.open_fds x,
        );
        distinct = (
          ground (arith, has-erase listenfd fd s.clients t.distinct.1, t.distinct.0),
          erase-Distinct fd s.clients t.distinct.1,
        );
      }

  -- A call that neither opens nor closes.
  abbrev IsNeutral : Call → Type 0
  IsNeutral c = (h : List Call) → opened os (c ∷ h) ≡ opened os h

  pub Tracks-call :
      (c : Call) (s : State) (h : List Call)
      → IsNeutral c
      → Tracks os listenfd s h
      → Tracks os listenfd s (c ∷ h)
  Tracks-call c s h n t = record {
    watched = t.watched;
    open_fds = λ fd. rw (n h) (t.open_fds fd);
    distinct = t.distinct;
  }

  abbrev pub added : ℕ → State → State
  added fd s = record s { clients = s.clients ++ fd ∷ []; allset = fd ∷ s.allset }

  pub added-Tracks :
      (fd : ℕ) (s : State) (h : List Call)
      → GivesFresh os
      → (os h (accepts (pos listenfd))).result ≡ pos fd
      → Tracks os listenfd s h
      → Tracks os listenfd (added fd s) (accepts (pos listenfd) ∷ h)
  unfolding opened
  added-Tracks fd s h fresh r t =
      let new : ((listenfd == fd) || has fd s.clients) ≡ false =
        sym (t.open_fds fd) ∙ fresh h (pos listenfd) fd r in
      record {
        watched = λ x. ground (arith, has-append x s.clients (fd ∷ []), t.watched x);
        open_fds = λ x. rw r (ground (arith, has-append x s.clients (fd ∷ []), t.open_fds x));
        distinct = (
          ground (arith, has-append listenfd s.clients (fd ∷ []), t.distinct.0),
          append-Distinct fd s.clients (ground arith) t.distinct.1,
        );
      }
