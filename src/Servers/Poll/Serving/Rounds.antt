-- ===== src/Servers/Poll/Serving/Rounds.antt =====
-- The rounds of the server over `poll` are runs of the service.
use unix_ipc.Prelude.{
  ℕ, ◌≡◌, refl, sym, ap, ◌∙◌, Bool, true, false, ◌||◌, inl, pos, List, [], ◌∷◌, ◌++◌, map, ltb,
  ◌==◌, if◌then◌else◌, arith,
}
use unix_ipc.Sys.{Call, Os, ok, Prog, accepts, polls, pure, ◌>>=◌}
use unix_ipc.Sys.Ensures.{partial, Ensures, if-Ensures, Ensures-ok}
use unix_ipc.Servers.Request.{checked-Ensures, error_handler-then, has}
use unix_ipc.Servers.Descriptors.{opened, GivesFresh}
use unix_ipc.Servers.Service.{Event, Serves, waits, joins, step, view_of, view-joins}
use unix_ipc.Servers.Service.Refinement.{
  stays-Refined, Does-Refined, after-Refined, >>=-Refined, Provides,
}
use unix_ipc.Servers.Poll.{
  State, fds, new_entry, polled, is_ready, requests, accept_client, after_poll, round, serve,
}
use unix_ipc.Servers.Poll.Rules.{serve-Ensures}
use unix_ipc.Servers.Poll.Watching.{Watches, Watches-call, fds-polled}
use unix_ipc.Servers.Poll.Rounds.{entries-append, Watches-polled, accepted-Watches}
use unix_ipc.Servers.Poll.Serving.Requests.{Goes, ready-Refined, entry-Refined, requests-Refined}
use unix_ipc.Servers.Poll.Serving.{rest, service, views, view-entries}

module _ (os : Os) (listenfd : ℕ) where
  joined :
      (fd : ℕ) (s : State) (h : List Call)
      → Watches os listenfd s h
      → service (record s { clients = s.clients ++ new_entry fd ∷ [] })
        ≡ step (joins fd) (service s)
  joined fd s h w =
      view-entries os listenfd (record s { clients = s.clients ++ new_entry fd ∷ [] })
        (w.clients ++ fd ∷ []) (entries-append fd listenfd s.clients w.clients w.entries)
      ∙ view-joins fd w.clients s.is_running
      ∙ ap (step (joins fd)) (sym (view-entries os listenfd s w.clients w.entries))

  module _ (fresh : GivesFresh os) where
    -- A descriptor that `accept` gives out is not served yet.
    unserved :
        (fd : ℕ) (s : State) (h : List Call)
        → (os h (accepts (pos listenfd))).result ≡ pos fd
        → Watches os listenfd s h
        → has fd (rest (fds s.clients)) ≡ false
    unserved fd s h e w =
        let new : ((listenfd == fd) || has fd w.clients) ≡ false =
          sym (w.open_fds fd) ∙ fresh h (pos listenfd) fd e in
        ap (λ xs. has fd (rest xs)) w.entries ∙ ground (arith, new)

    accept_client-Refined :
        (s : State) (h : List Call)
        → s.is_running ≡ true
        → Watches os listenfd s h
        → Ensures partial (accept_client listenfd s) os h (Goes os listenfd s h)
    unfolding accept_client
    accept_client-Refined s h run w =
        let more : ℕ → State = λ fd. record s { clients = s.clients ++ new_entry fd ∷ [] } in
        checked-Ensures partial (accepts (pos listenfd)) (λ fd. pure (more fd)) os h
          (Goes os listenfd s h)
          (λ fd e.
            Does-Refined os listenfd (views os listenfd) s (more fd) h (accepts (pos listenfd) ∷ h)
              (
                accepted-Watches os listenfd fd s h fresh e w,
                (joins fd, ((run, unserved fd s h e w), (e, refl), joined fd s h w)),
              ))

    after_poll-Refined :
        (nready : ℕ) (s : State) (h : List Call)
        → s.is_running ≡ true
        → Watches os listenfd s h
        → Ensures partial (after_poll listenfd nready s) os h (Goes os listenfd s h)
    unfolding after_poll
    after_poll-Refined nready s h run w =
        let more : State → Prog State = λ u. if ltb nready 2 then pure u else requests u in
        let act : Bool → Prog State =
          λ b. if b then accept_client listenfd s >>= more else requests s in
        entry-Refined os listenfd 0 (λ e. is_ready e >>= act) s h
          (λ e _. ready-Refined os listenfd e act s h (λ b.
            if-Ensures partial b (accept_client listenfd s >>= more) (requests s) os h
              (Goes os listenfd s h)
              (λ _.
                >>=-Refined os listenfd (views os listenfd) (accept_client listenfd s) more s h
                  (accept_client-Refined s h run w)
                  (λ u g r.
                    if-Ensures partial (ltb nready 2) (pure u) (requests u) os g
                      (Goes os listenfd u g)
                      (λ _. stays-Refined os listenfd (views os listenfd) u g r.0)
                      (λ _. requests-Refined os listenfd u g r.0)))
              (λ _. requests-Refined os listenfd s h w)))

    round-Refined :
        (s : State) (h : List Call)
        → s.is_running ≡ true
        → Watches os listenfd s h
        → Ensures partial (round listenfd s) os h (Goes os listenfd s h)
    unfolding round opened
    round-Refined s h run w =
        let c : Call = polls (map pos (fds s.clients)) in
        let u : State = record s { clients = polled s.clients (os h c).revents } in
        let w1 : Watches os listenfd u (c ∷ h) =
          Watches-call os listenfd c u h (λ _. refl)
            (Watches-polled os listenfd (os h c).revents s h w) in
        let seen =
          ap (λ xs. view_of (rest xs) s.is_running) (fds-polled s.clients (os h c).revents) in
        let waited : Goes os listenfd s h u (c ∷ h) =
          Does-Refined os listenfd (views os listenfd) s u h (c ∷ h)
            (w1, (waits, (run, (c, inl (map pos (fds s.clients), refl), refl), seen))) in
        error_handler-then partial (os h c).result (λ nready. after_poll listenfd nready u) os
          (c ∷ h) (Goes os listenfd s h)
          (λ n e.
            after-Refined os listenfd (views os listenfd) (after_poll listenfd n u) s u h (c ∷ h)
              waited (after_poll-Refined n u (c ∷ h) run w1))

    serve-Refined :
        (fuel : ℕ) (s : State) (h : List Call)
        → Watches os listenfd s h
        → Ensures partial
            (serve fuel listenfd s)
            os
            h
            (λ u g. Goes os listenfd s h u g × (u.is_running ≡ false))
    serve-Refined fuel s h w =
        serve-Ensures os listenfd (Goes os listenfd s h)
          (λ u g run r.
            after-Refined os listenfd (views os listenfd) (round listenfd u) s u h g r
              (round-Refined u g run r.0))
          fuel s h (stays-Refined os listenfd (views os listenfd) s h w)

  pub poll_server :
      GivesFresh os → Provides os listenfd State (views os listenfd) (λ fuel. serve fuel listenfd)
  poll_server fresh = record { refines = serve-Refined fresh }

  -- Through any number of rounds that return, the server over `poll` is the service: what it does
  -- is a sequence of events, each allowed when it happens, each made by its own system calls and by
  -- no others, that leads from the service that its entries show before to the one they show after,
  -- where `Watches` holds at first and `accept` gives out no open descriptor.
  pub serve-Serves :
      (fuel : ℕ) (s s' : State) (h g : List Call)
      → GivesFresh os
      → Watches os listenfd s h
      → serve fuel listenfd s os h ≡ (ok s', g)
      → (es : List Event) × Serves os listenfd es (service s) h (service s') g
  serve-Serves fuel s s' h g fresh w e =
      (Ensures-ok partial (serve fuel listenfd s os h)
        (λ u g. Goes os listenfd s h u g × (u.is_running ≡ false)) (serve-Refined fresh fuel s h w)
        e).0.1
