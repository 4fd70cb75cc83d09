-- ===== src/Servers/Poll/Rounds.antt =====
-- The rounds of the server over `poll`, which `poll` begins and one pass over the entries ends.
use unix_ipc.Prelude.{
  ℕ, ◌≡◌, ◌≢◌, refl, sym, ap, subst, ◌∙◌, Bool, false, ◌||◌, some, pos, List, [], ◌∷◌, ◌++◌, map,
  get_elem?, ltb, ◌==◌, if◌then◌else◌, arith,
}
use mathlib.Core.List.{map-append}
use unix_ipc.Sys.{
  faults, Call, Os, ok, out_of_fuel, polls, accepts, Prog, pure, or_fault, out_of_bounds, ◌>>=◌,
}
use unix_ipc.Sys.Ensures.{
  partial, inside, Ensures, >>=-Ensures, if-Ensures, or_fault-Ensures, Ensures-partial, Ensures-ok,
  inside-excludes,
}
use unix_ipc.Servers.Request.{checked-Ensures, error_handler-then, has}
use unix_ipc.Servers.Descriptors.{opened, GivesFresh, opened-accepts, has-append, append-Distinct}
use unix_ipc.Servers.Poll.{
  Entry, State, new_entry, fds, polled, is_ready, requests, accept_client, after_poll, round, serve,
}
use unix_ipc.Servers.Poll.Rules.{serve-Ensures}
use unix_ipc.Servers.Poll.Watching.{Watches, Watches-call, fds-polled}
use unix_ipc.Servers.Poll.Requests.{is_ready-Ensures, first-ne-none, requests-Watches}

-- The descriptors once a client has an entry.
pub entries-append :
    (fd l : ℕ) (es : List Entry) (clients : List ℕ)
    → fds es ≡ l ∷ clients
    → fds (es ++ new_entry fd ∷ []) ≡ l ∷ clients ++ fd ∷ []
entries-append fd l es clients e =
    map-append (λ e. e.fd) es (new_entry fd ∷ []) ∙ ap (λ xs. xs ++ fd ∷ []) e

module _ (os : Os) (listenfd : ℕ) where
  pub Watches-polled :
      (rs : List ℕ) (s : State) (h : List Call)
      → Watches os listenfd s h
      → Watches os listenfd (record s { clients = polled s.clients rs }) h
  Watches-polled rs s h w = record {
    clients = w.clients;
    entries = fds-polled s.clients rs ∙ w.entries;
    open_fds = w.open_fds;
    distinct = w.distinct;
  }

  pub accepted-Watches :
      (fd : ℕ) (s : State) (h : List Call)
      → GivesFresh os
      → (os h (accepts (pos listenfd))).result ≡ pos fd
      → Watches os listenfd s h
      → Watches os listenfd
          (record s { clients = s.clients ++ new_entry fd ∷ [] })
          (accepts (pos listenfd) ∷ h)
  accepted-Watches fd s h fresh r w =
      let new : ((listenfd == fd) || has fd w.clients) ≡ false =
        sym (w.open_fds fd) ∙ fresh h (pos listenfd) fd r in
      record {
        clients = w.clients ++ fd ∷ [];
        entries = entries-append fd listenfd s.clients w.clients w.entries;
        open_fds = λ x.
            rw
              (
                opened-accepts os (pos listenfd) h,
                r,
                has-append x w.clients (fd ∷ []),
                w.open_fds x,
              )
              (ground arith);
        distinct = (
          ground (arith, has-append listenfd w.clients (fd ∷ []), w.distinct.0),
          append-Distinct fd w.clients (ground arith) w.distinct.1,
        );
      }

  module _ (fresh : GivesFresh os) where
    accept_client-Watches :
        (s : State) (h : List Call)
        → Watches os listenfd s h
        → Ensures inside (accept_client listenfd s) os h (Watches os listenfd)
    unfolding accept_client
    accept_client-Watches s h w =
        checked-Ensures inside (accepts (pos listenfd))
          (λ fd. pure (record s { clients = s.clients ++ new_entry fd ∷ [] })) os h
          (Watches os listenfd) (λ fd e. accepted-Watches fd s h fresh e w)

    after_poll-Watches :
        (nready : ℕ) (s : State) (h : List Call)
        → Watches os listenfd s h
        → Ensures inside (after_poll listenfd nready s) os h (Watches os listenfd)
    unfolding after_poll
    after_poll-Watches nready s h w =
        let more : State → Prog State = λ u. if ltb nready 2 then pure u else requests u in
        let act : Bool → Prog State =
          λ b. if b then accept_client listenfd s >>= more else requests s in
        >>=-Ensures inside (or_fault (get_elem? s.clients 0) out_of_bounds)
          (λ e. is_ready e >>= act) os h (λ e g. (get_elem? s.clients 0 ≡ some e) × (g ≡ h))
          (Watches os listenfd)
          (or_fault-Ensures inside (get_elem? s.clients 0) out_of_bounds os h
            (λ n. first-ne-none s.clients listenfd w.clients w.entries n))
          (λ e g q.
            >>=-Ensures inside (is_ready e) act os g (λ b g1. g1 ≡ g) (Watches os listenfd)
              (is_ready-Ensures e os g)
              (λ b g1 q1.
                let w1 : Watches os listenfd s g1 =
                  subst (Watches os listenfd s) (sym (q1 ∙ q.1)) w in
                if-Ensures inside b (accept_client listenfd s >>= more) (requests s) os g1
                  (Watches os listenfd)
                  (λ _.
                    >>=-Ensures inside (accept_client listenfd s) more os g1 (Watches os listenfd)
                      (Watches os listenfd) (accept_client-Watches s g1 w1)
                      (λ u g2 w2.
                        if-Ensures inside (ltb nready 2) (pure u) (requests u) os g2
                          (Watches os listenfd) (λ _. w2)
                          (λ _. requests-Watches os listenfd u g2 w2)))
                  (λ _. requests-Watches os listenfd s g1 w1)))

    -- A round always ends, and where it returns, it keeps the invariant.
    pub round-Watches :
        (s : State) (h : List Call)
        → Watches os listenfd s h
        → Ensures inside (round listenfd s) os h (Watches os listenfd)
    unfolding round opened
    round-Watches s h w =
        let c : Call = polls (map pos (fds s.clients)) in
        let u : State = record s { clients = polled s.clients (os h c).revents } in
        let w1 : Watches os listenfd u (c ∷ h) =
          Watches-call os listenfd c u h (λ _. refl) (Watches-polled (os h c).revents s h w) in
        error_handler-then inside (os h c).result (λ nready. after_poll listenfd nready u) os
          (c ∷ h) (Watches os listenfd) (λ n e. after_poll-Watches n u (c ∷ h) w1)

    pub serve-Watches :
        (fuel : ℕ) (s : State) (h : List Call)
        → Watches os listenfd s h
        → Ensures partial
            (serve fuel listenfd s)
            os
            h
            (λ u g. Watches os listenfd u g × (u.is_running ≡ false))
    serve-Watches = serve-Ensures os listenfd (Watches os listenfd) (λ s h _ w.
        Ensures-partial inside (round listenfd s os h) (Watches os listenfd) (round-Watches s h w))

    -- A round of the server over `poll` ends, and reads no entry outside its vector, whoever hangs
    -- up in it, where its entries are those of the open descriptors, the listening one first, and
    -- `accept` gives out no open descriptor.
    pub round-total :
        (s : State) (h : List Call)
        → Watches os listenfd s h
        → ((round listenfd s os h).0 ≢ out_of_fuel)
          × ((round listenfd s os h).0 ≢ faults out_of_bounds)
    round-total s h w =
        inside-excludes (round listenfd s os h) (Watches os listenfd) (round-Watches s h w)

    -- Through any number of rounds of the server over `poll`, its first entry is that of the
    -- listening descriptor, no descriptor has two entries, and exactly the descriptors of the
    -- entries are open, where this holds at first and `accept` gives out no open descriptor.
    pub serve-keeps-Watches :
        (fuel : ℕ) (s s' : State) (h g : List Call)
        → serve fuel listenfd s os h ≡ (ok s', g)
        → Watches os listenfd s h
        → Watches os listenfd s' g
    serve-keeps-Watches fuel s s' h g e w =
        (Ensures-ok partial (serve fuel listenfd s os h)
          (λ u g. Watches os listenfd u g × (u.is_running ≡ false)) (serve-Watches fuel s h w) e).0
