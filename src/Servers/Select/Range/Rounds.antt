-- ===== src/Servers/Select/Range/Rounds.antt =====
-- The bounds of the calls of `select` through a round, the loop of rounds and `main`.
use unix_ipc.Prelude.{
  ℕ, suc, ◌+◌, ◌<◌, ◌≡◌, sym, subst, true, false, inl, inr, ◌⊎◌, ℤ, pos, List, [], ◌∷◌, ◌++◌, map,
  length, arith, Bool-cases,
}
use unix_ipc.Sys.{Call, Os, ok, selects, accepts, makes_socket, Prog, pure, ◌>>=◌}
use unix_ipc.Sys.Ensures.{map-Ensures, partial, Ensures, >>=-Ensures, if-Ensures, Ensures-ok}
use unix_ipc.Servers.Request.{checked-Ensures, server_calls, error_handler-then, has}
use unix_ipc.Servers.Descriptors.{has-append}
use unix_ipc.Servers.Select.{
  State, to_fds, fd_set, update_maxfd, accept_client, accept_if, requests, round, initial, finish,
  main,
}
use unix_ipc.Servers.Select.Rules.{fd_set-Ensures, serve-Ensures, finish-Ensures, main-Ensures}
use unix_ipc.Servers.Select.Range.{
  SelectsInRange, InRange, InRange-call, has-to_fds, update_maxfd-InRange, requests_from-InRange,
}

module _ (os : Os) (l : ℕ) where
  accept_client-InRange :
      (s : State) (h : List Call)
      → InRange l s h
      → Ensures partial (accept_client l s) os h (InRange l)
  unfolding accept_client
  accept_client-InRange s h r =
      let k : ℕ → List ℕ → Prog State =
        λ fd set. update_maxfd (record s { clients = s.clients ++ fd ∷ []; allset = set }) in
      checked-Ensures partial (accepts (pos l)) (λ fd. fd_set fd s.allset >>= k fd) os h (InRange l)
        (λ fd _.
          >>=-Ensures partial (fd_set fd s.allset) (k fd) os (accepts (pos l) ∷ h)
            (λ set g. (fd < 1024) × (set ≡ fd ∷ s.allset) × (g ≡ accepts (pos l) ∷ h)) (InRange l)
            (fd_set-Ensures partial tt fd s.allset os (accepts (pos l) ∷ h))
            (λ set g q.
              update_maxfd-InRange os l (record s { clients = s.clients ++ fd ∷ []; allset = set })
                g (λ x y. added fd x (subst (λ xs. has x xs ≡ true) q.1 y))
                (λ x y. ground (arith, has-append x s.clients (fd ∷ []), r.clients_lt x, q.0))
                (subst (SelectsInRange l) (sym q.2) (tt, r.calls))))
    where
      added :
          (fd x : ℕ)
          → has x (fd ∷ s.allset) ≡ true
          → (x ≡ l) ⊎ (has x (s.clients ++ fd ∷ []) ≡ true)
      added fd x y = elim (Bool-cases (has x s.allset)) [
        | inr n ↦ inr (ground (arith, has-append x s.clients (fd ∷ [])))
        | inl t ↦ elim (r.watched x t) [
          | inl p ↦ inl p
          | inr p ↦ inr (ground (arith, has-append x s.clients (fd ∷ [])))
        ]
      ]

  round-InRange :
      (s : State) (h : List Call) → InRange l s h → Ensures partial (round l s) os h (InRange l)
  unfolding round requests accept_if
  round-InRange s h r =
      let c = selects (pos (s.maxfd + 1)) (map pos s.allset) in
      let readset = to_fds (os h c).ready in
      error_handler-then partial (os h c).result
        (λ _. accept_if l readset s >>= λ u. requests readset u) os (c ∷ h) (InRange l)
        (λ n _.
          >>=-Ensures partial (accept_if l readset s) (λ u. requests readset u) os (c ∷ h)
            (InRange l) (InRange l)
            (if-Ensures partial (has l readset) (accept_client l s) (pure s) os (c ∷ h) (InRange l)
              (λ _. accept_client-InRange s (c ∷ h) called) (λ _. called))
            (λ u g k. requests_from-InRange os l (suc (length u.clients)) 0 readset u g k))
    where
      called : InRange l s (selects (pos (s.maxfd + 1)) (map pos s.allset) ∷ h)
      called =
          InRange-call os l (selects (pos (s.maxfd + 1)) (map pos s.allset)) s h
            (
              omega (arith, r.maxfd_lt),
              λ x y. elim (r.watched x (subst (λ xs. has x xs ≡ true) (has-to_fds s.allset) y)) [
                | inl p ↦ inl p
                | inr p ↦ inr (omega (arith, r.clients_le x p))
              ],
            )
            r

  initial-InRange :
      (h : List Call) → SelectsInRange l h → Ensures partial (initial l) os h (InRange l)
  unfolding initial
  initial-InRange h c =
      let s : List ℕ → State =
        λ set. record { clients = []; allset = set; maxfd = l; is_running = true } in
      >>=-Ensures partial (fd_set l []) (λ set. pure (s set)) os h
        (λ set g. (l < 1024) × (set ≡ l ∷ []) × (g ≡ h)) (InRange l)
        (fd_set-Ensures partial tt l [] os h)
        (λ set g q. record {
          watched = λ x y. inl (ground (arith, subst (λ xs. has x xs ≡ true) q.1 y));
          clients_le = λ x y. cc;
          clients_lt = λ x y. cc;
          maxfd_lt = q.0;
          calls = subst (SelectsInRange l) (sym q.2) c;
        })

-- The calls of `select` are in range for the listening descriptor, which `socket` gave.
abbrev RunInRange : Os → List Call → Type 0
RunInRange os g = (l : ℕ) × ((os [] (makes_socket 2 1)).result ≡ pos l) × SelectsInRange l g

-- In a run of the server over `select` that returns from `main`, every call of `select` looks at no
-- more than 1024 numbers, and every descriptor of its set, but possibly the listening one, is among
-- them.
pub main-InRange :
    (fuel argc port : ℕ) (os : Os) (n : ℤ) (g : List Call)
    → main fuel argc port os [] ≡ (ok n, g)
    → (l : ℕ) × ((os [] (makes_socket 2 1)).result ≡ pos l) × SelectsInRange l g
main-InRange fuel argc port os n g =
    let In : ℕ → State → List Call → Type 0 = λ l s h. InRange l s h × (s.is_running ≡ false) in
    Ensures-ok partial (main fuel argc port os []) (λ _. RunInRange os)
      (main-Ensures os fuel argc port InRange In (RunInRange os)
        (λ l e. initial-InRange os l (server_calls port l []) (tt, (tt, (tt, tt))))
        (λ l s h r. serve-Ensures os l (InRange l) (λ s h _. round-InRange os l s h) fuel s h r)
        (λ l s h e r.
          map-Ensures partial (finish l s os h) (λ _. SelectsInRange l) (λ _. RunInRange os)
            (finish-Ensures os (SelectsInRange l) (λ n h c. (tt, c)) l s h r.0.calls)
            (λ _ _ c. (l, e, c))))
