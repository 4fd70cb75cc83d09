-- ===== src/Servers/Select/Serving/Rounds.antt =====
-- The rounds of the server over `select` are runs of the service.
use unix_ipc.Prelude.{
  ℕ, zero, suc, ◌+◌, ◌<◌, ◌≡◌, refl, sym, ap, subst, ◌∙◌, true, false, ◌||◌, some, inr, pos, List,
  [], ◌∷◌, ◌++◌, map, length, get_elem?, ltb, ◌==◌, arith,
}
use unix_ipc.Sys.{Call, Os, ok, Prog, accepts, selects, pure, or_fault, out_of_bounds, ◌>>=◌}
use unix_ipc.Sys.Ensures.{
  both-Post, partial, Ensures, >>=-Ensures, if-Ensures, or_fault-Ensures, map-Ensures, Ensures-ok,
}
use unix_ipc.Servers.Request.{checked-Ensures, error_handler-then, has}
use unix_ipc.Servers.Descriptors.{opened, GivesFresh}
use unix_ipc.Servers.Service.{Event, Serves, waits, joins, view-joins}
use unix_ipc.Servers.Service.Refinement.{
  Refined, Does, stays-Refined, Does-Refined, after-Refined, >>=-Refined, Provides,
}
use unix_ipc.Servers.Select.{
  State, to_fds, fd_set, update_maxfd, accept_client, request_at, requests_from, accept_if,
  requests, round, serve,
}
use unix_ipc.Servers.Select.Rules.{OnlyMaxfd, fd_set-Ensures, update_maxfd-Ensures, serve-Ensures}
use unix_ipc.Servers.Select.Watched.{Tracks, Tracks-call}
use unix_ipc.Servers.Select.Tracking.{accept_client-Tracks}
use unix_ipc.Servers.Select.Serving.{service, views, request_at-Refined}

has-get_elem? : (xs : List ℕ) (i x : ℕ) → get_elem? xs i ≡ some x → has x xs ≡ true
has-get_elem? [] i x p = cc
has-get_elem? (y ∷ ys) zero x p = ground arith
has-get_elem? (y ∷ ys) (suc i) x p = ground (arith, has-get_elem? ys i x p)

module _ (os : Os) (listenfd : ℕ) where
  abbrev Goes : State → List Call → State → List Call → Type 0
  Goes = Refined os listenfd (views os listenfd)

  requests_from-Refined :
      (fuel i : ℕ) (readset : List ℕ) (s : State) (h : List Call)
      → Tracks os listenfd s h
      → Ensures partial (requests_from fuel i readset s) os h (Goes s h)
  unfolding requests_from
  requests_from-Refined zero i readset s h t = tt
  requests_from-Refined (suc fuel) i readset s h t =
      let next : ℕ → Prog State =
        λ fd. request_at fd readset s >>= λ u. requests_from fuel (i + 1) readset u in
      if-Ensures partial (ltb i (length s.clients))
        (or_fault (get_elem? s.clients i) out_of_bounds >>= next) (pure s) os h (Goes s h)
        (λ _.
          >>=-Ensures partial (or_fault (get_elem? s.clients i) out_of_bounds) next os h
            (λ fd g. (get_elem? s.clients i ≡ some fd) × (g ≡ h)) (Goes s h)
            (or_fault-Ensures partial (get_elem? s.clients i) out_of_bounds os h (λ _. tt))
            (λ fd g q.
              subst (λ g. Ensures partial (next fd) os g (Goes s h)) (sym q.1)
                (>>=-Refined os listenfd (views os listenfd) (request_at fd readset s)
                  (requests_from fuel (i + 1) readset) s h
                  (request_at-Refined os listenfd fd readset s h t
                    (has-get_elem? s.clients i fd q.0))
                  (λ u g1 r. requests_from-Refined fuel (i + 1) readset u g1 r.0))))
        (λ _. stays-Refined os listenfd (views os listenfd) s h t)

  module _ (fresh : GivesFresh os) where
    accept_client-Does :
        (s : State) (h : List Call)
        → s.is_running ≡ true
        → Tracks os listenfd s h
        → Ensures partial (accept_client listenfd s) os h (Does os listenfd (views os listenfd) s h)
    unfolding accept_client
    accept_client-Does s h run t =
        let R : State → List Call → Type 0 = Does os listenfd (views os listenfd) s h in
        let c : Call = accepts (pos listenfd) in
        let more : ℕ → List ℕ → State =
          λ fd set. record s { clients = s.clients ++ fd ∷ []; allset = set } in
        checked-Ensures partial c (λ fd. fd_set fd s.allset >>= λ set. update_maxfd (more fd set))
          os h R
          (λ fd e.
            >>=-Ensures partial (fd_set fd s.allset) (λ set. update_maxfd (more fd set)) os (c ∷ h)
              (λ set g. (fd < 1024) × (set ≡ fd ∷ s.allset) × (g ≡ c ∷ h)) R
              (fd_set-Ensures partial tt fd s.allset os (c ∷ h))
              (λ set g q.
                map-Ensures partial (update_maxfd (more fd set) os g) (OnlyMaxfd (more fd set) g) R
                  (update_maxfd-Ensures partial tt (more fd set) os g)
                  (λ u k (m, _, p, r). (
                    joins fd,
                    (
                      (run, unserved fd s h e t),
                      (e, r ∙ q.2),
                      ap service p ∙ view-joins fd s.clients s.is_running,
                    ),
                  ))))
      where
        unserved :
            (fd : ℕ) (s : State) (h : List Call)
            → (os h (accepts (pos listenfd))).result ≡ pos fd
            → Tracks os listenfd s h
            → has fd s.clients ≡ false
        unserved fd s h e t =
            let new : ((listenfd == fd) || has fd s.clients) ≡ false =
              sym (t.open_fds fd) ∙ fresh h (pos listenfd) fd e in
            ground (arith, new)

    accept_if-Refined :
        (readset : List ℕ) (s : State) (h : List Call)
        → s.is_running ≡ true
        → Tracks os listenfd s h
        → Ensures partial (accept_if listenfd readset s) os h (Goes s h)
    unfolding accept_if
    accept_if-Refined readset s h run t =
        if-Ensures partial (has listenfd readset) (accept_client listenfd s) (pure s) os h
          (Goes s h)
          (λ _.
            map-Ensures partial (accept_client listenfd s os h)
              (λ u g. Tracks os listenfd u g × Does os listenfd (views os listenfd) s h u g)
              (Goes s h)
              (both-Post partial (accept_client listenfd s os h) (Tracks os listenfd)
                (Does os listenfd (views os listenfd) s h)
                (accept_client-Tracks os listenfd fresh s h t) (accept_client-Does s h run t))
              (λ u g. Does-Refined os listenfd (views os listenfd) s u h g))
          (λ _. stays-Refined os listenfd (views os listenfd) s h t)

    round-Refined :
        (s : State) (h : List Call)
        → s.is_running ≡ true
        → Tracks os listenfd s h
        → Ensures partial (round listenfd s) os h (Goes s h)
    unfolding round requests opened
    round-Refined s h run t =
        let c : Call = selects (pos (s.maxfd + 1)) (map pos s.allset) in
        let readset = to_fds (os h c).ready in
        let asked : State → Prog State = requests readset in
        let waited : Goes s h s (c ∷ h) =
          Does-Refined os listenfd (views os listenfd) s s h (c ∷ h) (
            Tracks-call os listenfd c s h (λ _. refl) t,
            (waits, (run, (c, inr (pos (s.maxfd + 1), map pos s.allset, refl), refl), refl)),
          ) in
        error_handler-then partial (os h c).result (λ _. accept_if listenfd readset s >>= asked) os
          (c ∷ h) (Goes s h)
          (λ n e.
            after-Refined os listenfd (views os listenfd) (accept_if listenfd readset s >>= asked) s
              s h (c ∷ h) waited
              (>>=-Refined os listenfd (views os listenfd) (accept_if listenfd readset s) asked s
                (c ∷ h) (accept_if-Refined readset s (c ∷ h) run waited.0)
                (λ u g r. requests_from-Refined (suc (length u.clients)) 0 readset u g r.0)))

    serve-Refined :
        (fuel : ℕ) (s : State) (h : List Call)
        → Tracks os listenfd s h
        → Ensures partial
            (serve fuel listenfd s)
            os
            h
            (λ u g. Goes s h u g × (u.is_running ≡ false))
    serve-Refined fuel s h t =
        serve-Ensures os listenfd (Goes s h)
          (λ u g run r.
            after-Refined os listenfd (views os listenfd) (round listenfd u) s u h g r
              (round-Refined u g run r.0))
          fuel s h (stays-Refined os listenfd (views os listenfd) s h t)

  pub select_server :
      GivesFresh os → Provides os listenfd State (views os listenfd) (λ fuel. serve fuel listenfd)
  select_server fresh = record { refines = serve-Refined fresh }

  -- Through any number of rounds that return, the server over `select` is the service: what it does
  -- is a sequence of events, each allowed when it happens, each made by its own system calls and by
  -- no others, that leads from the service that its clients show before to the one they show after,
  -- where `Tracks` holds at first and `accept` gives out no open descriptor.
  pub serve-Events :
      (fuel : ℕ) (s s' : State) (h g : List Call)
      → GivesFresh os
      → Tracks os listenfd s h
      → serve fuel listenfd s os h ≡ (ok s', g)
      → (es : List Event) × Serves os listenfd es (service s) h (service s') g
  serve-Events fuel s s' h g fresh t e =
      (Ensures-ok partial (serve fuel listenfd s os h)
        (λ u g. Goes s h u g × (u.is_running ≡ false)) (serve-Refined fresh fuel s h t) e).0.1
