-- ===== src/Servers/Select/Range.antt =====
-- The numbers that the server over `select` passes to it: `maxfd + 1` and the descriptors.
pub mod Rounds
use unix_ipc.Prelude.{
  ℕ, zero, suc, ◌+◌, ◌≤◌, ◌<◌, ◌≡◌, ◌≢◌, refl, sym, ap, subst, ◌∙◌, Bool, true, false, not, ◌&&◌,
  ◌||◌, Option, none, some, inl, inr, ◌⊎◌, Bytes, ℤ, pos, negsuc, List, [], ◌∷◌, ◌++◌, map, length,
  get_elem?, ltb, ◌==◌, if◌then◌else◌, arith, Bool-cases, Option-cases, fill, c_string, bytes_eq,
}
use unix_ipc.Sys.{
  Call, Os, ok, reads, writes, closes, selects, accepts, makes_socket, binds, listens, Prog, pure,
  or_fault, call_, exit, fault, out_of_bounds, no_terminator, past_the_end, result_of, ◌>>=◌, ◌>>◌,
}
use unix_ipc.Sys.Ensures.{partial, Ensures, >>=-Ensures, if-Ensures, or_fault-Ensures, Ensures-ok}
use unix_ipc.Servers.Request.{
  error_handler, checked-Ensures, error_handler-then, has, stop, request_buffer, open_server,
  any_address,
}
use unix_ipc.Servers.Descriptors.{has-append}
use unix_ipc.Servers.Select.Watched.{has-fd_clr}
use unix_ipc.Servers.Select.{
  State, to_fds, fd_set, fd_clr, larger, max_element, update_maxfd, erase, hang_up, reply_to,
  take_request, handle_request, accept_client, request_at, requests_from, accept_if, requests,
  round, serve, close_connections, initial, finish, main,
}

-- A call of `select` with at most 1024 numbers to look at, which include every descriptor of the
-- set but possibly the listening one.
abbrev pub SelectInRange : ℕ → Call → Type 0
SelectInRange l (selects (pos n) fds) =
    (n ≤ 1024) × ((fd : ℕ) → has fd (to_fds fds) ≡ true → (fd ≡ l) ⊎ (fd < n))
SelectInRange l (selects (negsuc n) fds) = ⊥
SelectInRange l _ = Unit {0}

abbrev pub SelectsInRange : ℕ → List Call → Type 0
SelectsInRange l [] = Unit {0}
SelectsInRange l (c ∷ h) = SelectInRange l c × SelectsInRange l h

pub record InRange (l : ℕ) (s : State) (h : List Call) : Type 0 where
  pub watched : (fd : ℕ) → has fd s.allset ≡ true → (fd ≡ l) ⊎ (has fd s.clients ≡ true)
  pub clients_le : (fd : ℕ) → has fd s.clients ≡ true → fd ≤ s.maxfd
  pub clients_lt : (fd : ℕ) → has fd s.clients ≡ true → fd < 1024
  pub maxfd_lt : s.maxfd < 1024
  pub calls : SelectsInRange l h

max_element-has : (xs : List ℕ) (m : ℕ) → max_element xs ≡ some m → has m xs ≡ true
unfolding max_element
max_element-has [] m e = cc
max_element-has (x ∷ xs) m e = elim (Option-cases (max_element xs)) [
  | inl n ↦ let e' = rw n at e in ground arith
  | inr (k, n) ↦ let e' = rw n at e in ground (arith, max_element-has xs k n)
]

max_element-none : (xs : List ℕ) (x : ℕ) → max_element xs ≡ none → has x xs ≡ false
unfolding max_element
max_element-none [] x e = refl
max_element-none (z ∷ xs) x e = elim (Option-cases (max_element xs)) [
  | inl n ↦ let e' = rw n at e in cc
  | inr (k, n) ↦ let e' = rw n at e in cc
]

le-max_element : (xs : List ℕ) (m x : ℕ) → max_element xs ≡ some m → has x xs ≡ true → x ≤ m
unfolding max_element
le-max_element [] m x e y = cc
le-max_element (z ∷ xs) m x e y = elim (Option-cases (max_element xs)) [
  | inl n ↦ let e' = rw n at e in ground (arith, max_element-none xs x n)
  | inr (k, n) ↦ let e' = rw n at e in ground (arith, le-max_element xs k x n)
]

has-erased : (x fd : ℕ) (xs : List ℕ) → has x (erase fd xs) ≡ true → has x xs ≡ true
unfolding erase
has-erased x fd [] y = y
has-erased x fd (z ∷ xs) y = ground (arith, has-erased x fd xs)

has-kept : (x fd : ℕ) (xs : List ℕ) → has x xs ≡ true → x ≢ fd → has x (erase fd xs) ≡ true
unfolding erase
has-kept x fd [] y n = cc
has-kept x fd (z ∷ xs) y n = ground (arith, has-kept x fd xs)

pub has-to_fds : (xs : List ℕ) → to_fds (map pos xs) ≡ xs
has-to_fds [] = refl
has-to_fds (x ∷ xs) = ap (◌∷◌ x) (has-to_fds xs)

module _ (os : Os) (l : ℕ) where
  -- A call other than `select`.
  pub InRange-call :
      (c : Call) (s : State) (h : List Call)
      → SelectInRange l c
      → InRange l s h
      → InRange l s (c ∷ h)
  InRange-call c s h fine r = record {
    watched = r.watched;
    clients_le = r.clients_le;
    clients_lt = r.clients_lt;
    maxfd_lt = r.maxfd_lt;
    calls = (fine, r.calls);
  }

  -- `updateMaxFd` restores the bounds, whatever `maxfd` was.
  pub update_maxfd-InRange :
      (s : State) (h : List Call)
      → ((fd : ℕ) → has fd s.allset ≡ true → (fd ≡ l) ⊎ (has fd s.clients ≡ true))
      → ((fd : ℕ) → has fd s.clients ≡ true → fd < 1024)
      → SelectsInRange l h
      → Ensures partial (update_maxfd s) os h (InRange l)
  unfolding update_maxfd
  update_maxfd-InRange s h w b c =
      >>=-Ensures partial (or_fault (max_element s.clients) past_the_end)
        (λ m. pure (record s { maxfd = m })) os h
        (λ m g. (max_element s.clients ≡ some m) × (g ≡ h)) (InRange l)
        (or_fault-Ensures partial (max_element s.clients) past_the_end os h (λ _. tt))
        (λ m g q. record {
          watched = w;
          clients_le = λ x. le-max_element s.clients m x q.0;
          clients_lt = b;
          maxfd_lt = b m (max_element-has s.clients m q.0);
          calls = subst (SelectsInRange l) (sym q.1) c;
        })

  hang_up-InRange :
      (fd : ℕ) (s : State) (h : List Call)
      → InRange l s h
      → Ensures partial (hang_up fd s) os h (InRange l)
  unfolding hang_up
  hang_up-InRange fd s h r =
      let u : State = record s { clients = erase fd s.clients; allset = fd_clr fd s.allset } in
      if-Ensures partial (has fd s.clients) (call_ (closes (pos fd)) >> update_maxfd u)
        (exit (negsuc 0)) os h (InRange l)
        (λ _.
          update_maxfd-InRange u (closes (pos fd) ∷ h) (λ x y. still x y)
            (λ x y. r.clients_lt x (has-erased x fd s.clients y)) (tt, r.calls))
        (λ _. tt)
    where
      still :
          (x : ℕ)
          → has x (fd_clr fd s.allset) ≡ true
          → (x ≡ l) ⊎ (has x (erase fd s.clients) ≡ true)
      still x y =
          let e = sym (has-fd_clr x fd s.allset) ∙ y in
          elim (r.watched x (ground arith)) [
            | inl p ↦ inl p
            | inr p ↦ inr (has-kept x fd s.clients p (ground arith))
          ]

  reply_to-InRange :
      (fd : ℕ) (text : Bytes) (s : State) (h : List Call)
      → InRange l s h
      → Ensures partial (reply_to fd text s) os h (InRange l)
  unfolding reply_to
  reply_to-InRange fd text s h r =
      if-Ensures partial (bytes_eq text stop) (pure (record s { is_running = false }))
        (result_of (writes (pos fd) text) >>= λ n. error_handler n >>= λ _. pure s) os h (InRange l)
        (λ _. record {
          watched = r.watched;
          clients_le = r.clients_le;
          clients_lt = r.clients_lt;
          maxfd_lt = r.maxfd_lt;
          calls = r.calls;
        })
        (λ _.
          checked-Ensures partial (writes (pos fd) text) (λ _. pure s) os h (InRange l)
            (λ n e. InRange-call (writes (pos fd) text) s h tt r))

  take_request-InRange :
      (fd n : ℕ) (buff : Bytes) (s : State) (h : List Call)
      → InRange l s h
      → Ensures partial (take_request fd n buff s) os h (InRange l)
  unfolding take_request
  take_request-InRange fd n buff s h r =
      if-Ensures partial (n == 0) (hang_up fd s)
        (or_fault (c_string buff) no_terminator >>= λ text. reply_to fd text s) os h (InRange l)
        (λ _. hang_up-InRange fd s h r)
        (λ _.
          >>=-Ensures partial (or_fault (c_string buff) no_terminator) (λ text. reply_to fd text s)
            os h (λ text g. (c_string buff ≡ some text) × (g ≡ h)) (InRange l)
            (or_fault-Ensures partial (c_string buff) no_terminator os h (λ _. tt))
            (λ text g q. reply_to-InRange fd text s g (subst (InRange l s) (sym q.1) r)))

  request_at-InRange :
      (fd : ℕ) (readset : List ℕ) (s : State) (h : List Call)
      → InRange l s h
      → Ensures partial (request_at fd readset s) os h (InRange l)
  unfolding request_at handle_request
  request_at-InRange fd readset s h r =
      let c = reads (pos fd) 1024 in
      if-Ensures partial (has fd readset) (handle_request fd s) (pure s) os h (InRange l)
        (λ _.
          error_handler-then partial (os h c).result
            (λ n. take_request fd n (fill request_buffer (os h c).bytes) s) os (c ∷ h) (InRange l)
            (λ n _.
              take_request-InRange fd n (fill request_buffer (os h c).bytes) s (c ∷ h)
                (InRange-call c s h tt r)))
        (λ _. r)

  pub requests_from-InRange :
      (fuel i : ℕ) (readset : List ℕ) (s : State) (h : List Call)
      → InRange l s h
      → Ensures partial (requests_from fuel i readset s) os h (InRange l)
  unfolding requests_from
  requests_from-InRange zero i readset s h r = tt
  requests_from-InRange (suc fuel) i readset s h r =
      let k : State → Prog State = λ u. requests_from fuel (i + 1) readset u in
      if-Ensures partial (ltb i (length s.clients))
        (or_fault (get_elem? s.clients i) out_of_bounds >>= λ fd. request_at fd readset s >>= k)
        (pure s) os h (InRange l)
        (λ _.
          >>=-Ensures partial (or_fault (get_elem? s.clients i) out_of_bounds)
            (λ fd. request_at fd readset s >>= k) os h
            (λ fd g. (get_elem? s.clients i ≡ some fd) × (g ≡ h)) (InRange l)
            (or_fault-Ensures partial (get_elem? s.clients i) out_of_bounds os h (λ _. tt))
            (λ fd g q.
              >>=-Ensures partial (request_at fd readset s) k os g (InRange l) (InRange l)
                (request_at-InRange fd readset s g (subst (InRange l s) (sym q.1) r))
                (λ u g1 r1. requests_from-InRange fuel (i + 1) readset u g1 r1)))
        (λ _. r)
