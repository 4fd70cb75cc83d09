-- ===== src/Servers/Select/Tracking.antt =====
-- What the rounds of the server over `select` do to its descriptors.
use unix_ipc.Prelude.{
  ℕ, zero, suc, ◌+◌, ◌<◌, ◌≡◌, refl, sym, subst, false, some, pos, List, [], ◌∷◌, ◌++◌, map, length,
  get_elem?, ltb,
}
use unix_ipc.Sys.{Call, Os, Prog, ok, accepts, selects, pure, ◌>>=◌, or_fault, out_of_bounds}
use unix_ipc.Sys.Ensures.{partial, Ensures, >>=-Ensures, if-Ensures, or_fault-Ensures, Ensures-ok}
use unix_ipc.Servers.Request.{checked-Ensures, error_handler-then, has}
use unix_ipc.Servers.Descriptors.{opened, GivesFresh}
use unix_ipc.Servers.Select.Rules.{fd_set-Ensures, serve-Ensures}
use unix_ipc.Servers.Select.Watched.{Tracks, Tracks-call, added-Tracks}
use unix_ipc.Servers.Select.Handled.{update_maxfd-Tracks, request_at-Tracks}
use unix_ipc.Servers.Select.{
  State, fd_set, update_maxfd, accept_client, request_at, requests_from, accept_if, requests, round,
  serve, to_fds,
}

module _ (os : Os) (listenfd : ℕ) where
  requests_from-Tracks :
      (fuel i : ℕ) (readset : List ℕ) (s : State) (h : List Call)
      → Tracks os listenfd s h
      → Ensures partial (requests_from fuel i readset s) os h (Tracks os listenfd)
  unfolding requests_from
  requests_from-Tracks zero i readset s h t = tt
  requests_from-Tracks (suc fuel) i readset s h t =
      let next : ℕ → Prog State =
        λ fd. request_at fd readset s >>= λ u. requests_from fuel (i + 1) readset u in
      let T = Tracks os listenfd in
      if-Ensures partial (ltb i (length s.clients))
        (or_fault (get_elem? s.clients i) out_of_bounds >>= next) (pure s) os h T
        (λ _.
          >>=-Ensures partial (or_fault (get_elem? s.clients i) out_of_bounds) next os h
            (λ fd g. (get_elem? s.clients i ≡ some fd) × (g ≡ h)) T
            (or_fault-Ensures partial (get_elem? s.clients i) out_of_bounds os h (λ _. tt))
            (λ fd g q.
              >>=-Ensures partial (request_at fd readset s) (requests_from fuel (i + 1) readset) os
                g T T (request_at-Tracks os listenfd fd readset s g (subst (T s) (sym q.1) t))
                (λ u g1 t1. requests_from-Tracks fuel (i + 1) readset u g1 t1)))
        (λ _. t)

  module _ (fresh : GivesFresh os) where
    pub accept_client-Tracks :
        (s : State) (h : List Call)
        → Tracks os listenfd s h
        → Ensures partial (accept_client listenfd s) os h (Tracks os listenfd)
    unfolding accept_client
    accept_client-Tracks s h t =
        let T = Tracks os listenfd in
        let c : Call = accepts (pos listenfd) in
        let more : ℕ → List ℕ → State =
          λ fd set. record s { clients = s.clients ++ fd ∷ []; allset = set } in
        checked-Ensures partial c (λ fd. fd_set fd s.allset >>= λ set. update_maxfd (more fd set))
          os h T
          (λ fd e.
            >>=-Ensures partial (fd_set fd s.allset) (λ set. update_maxfd (more fd set)) os (c ∷ h)
              (λ set g. (fd < 1024) × (set ≡ fd ∷ s.allset) × (g ≡ c ∷ h)) T
              (fd_set-Ensures partial tt fd s.allset os (c ∷ h))
              (λ set g q.
                update_maxfd-Tracks os listenfd (more fd set) g
                  (rw (q.1, q.2) (added-Tracks os listenfd fd s h fresh e t))))

    round-Tracks :
        (s : State) (h : List Call)
        → Tracks os listenfd s h
        → Ensures partial (round listenfd s) os h (Tracks os listenfd)
    unfolding round requests accept_if opened
    round-Tracks s h t =
        let T = Tracks os listenfd in
        let c = selects (pos (s.maxfd + 1)) (map pos s.allset) in
        let readset = to_fds (os h c).ready in
        let t1 : T s (c ∷ h) = Tracks-call os listenfd c s h (λ _. refl) t in
        error_handler-then partial (os h c).result
          (λ _. accept_if listenfd readset s >>= λ u. requests readset u) os (c ∷ h) T
          (λ n _.
            >>=-Ensures partial (accept_if listenfd readset s) (λ u. requests readset u) os (c ∷ h)
              T T
              (if-Ensures partial (has listenfd readset) (accept_client listenfd s) (pure s) os
                (c ∷ h) T (λ _. accept_client-Tracks s (c ∷ h) t1) (λ _. t1))
              (λ u g t2. requests_from-Tracks (suc (length u.clients)) 0 readset u g t2))

    -- Through any number of rounds of the server over `select`, the watched set, the listening
    -- descriptor with the list of clients, and the descriptors that are open stay the same, and no
    -- client is listed twice, where this holds at first and `accept` gives out no open descriptor.
    pub serve-Tracks :
        (fuel : ℕ) (s s' : State) (h g : List Call)
        → serve fuel listenfd s os h ≡ (ok s', g)
        → Tracks os listenfd s h
        → Tracks os listenfd s' g
    serve-Tracks fuel s s' h g e t =
        (Ensures-ok partial (serve fuel listenfd s os h)
          (λ u g. Tracks os listenfd u g × (u.is_running ≡ false))
          (serve-Ensures os listenfd (Tracks os listenfd) (λ s h _. round-Tracks s h) fuel s h t)
          e).0
