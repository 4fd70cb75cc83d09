-- ===== src/Servers/Select/Serving.antt =====
-- The server over `select` as a service: what a request does to it.
pub mod Rounds
pub mod Echo
use unix_ipc.Prelude.{
  none, ℕ, zero, suc, ◌+◌, ◌≡◌, ◌≢◌, refl, sym, ap, subst, ◌∙◌, Bool, true, false, ◌||◌, some,
  Bytes, ℤ, pos, negsuc, List, [], ◌∷◌, ◌++◌, map, length, get_elem?, ltb, ◌==◌, if◌then◌else◌,
  arith, fill, c_string, bytes_eq,
}
use unix_ipc.Sys.{
  Call, Os, ok, Prog, reads, writes, closes, pure, exit, call_, result_of, or_fault, no_terminator,
  past_the_end, ◌>>=◌, ◌>>◌,
}
use unix_ipc.Sys.Ensures.{
  both-Post, partial, Ensures, >>=-Ensures, if-Ensures, or_fault-Ensures, map-Ensures,
}
use unix_ipc.Servers.Request.{
  error_handler, checked-Ensures, error_handler-then, has, stop, request_buffer,
}
use unix_ipc.Servers.Service.{
  Service, waits, joins, echoes, leaves, stops, step, heard, view_of, view-leaves,
}
use unix_ipc.Servers.Service.Refinement.{Views, Refined, Does, stays-Refined, Does-Refined}
use unix_ipc.Servers.Select.{
  State, max_element, update_maxfd, erase, fd_clr, hang_up, reply_to, take_request, handle_request,
  request_at,
}
use unix_ipc.Servers.Select.Rules.{OnlyMaxfd, update_maxfd-Ensures}
use unix_ipc.Servers.Select.Watched.{Tracks}
use unix_ipc.Servers.Select.Handled.{handle_request-Tracks}

abbrev pub service : State → Service
service s = view_of s.clients s.is_running

abbrev pub views : Os → ℕ → Views State
views os listenfd = record { view = service; Holds = Tracks os listenfd }

module _ (os : Os) (listenfd : ℕ) where
  -- What the server does after a `read` of a client that it serves.
  module _ (fd : ℕ) (s : State) (h : List Call) (t : Tracks os listenfd s h)
      (client : has fd s.clients ≡ true) where
    abbrev Did : State → List Call → Type 0
    Did = Does os listenfd (views os listenfd) s h

    hang_up-Does :
        heard (os h (reads (pos fd) 1024)) ≡ none
        → Ensures partial (hang_up fd s) os (reads (pos fd) 1024 ∷ h) Did
    unfolding hang_up
    hang_up-Does n =
        let gone : State = record s { clients = erase fd s.clients; allset = fd_clr fd s.allset } in
        let h1 = reads (pos fd) 1024 ∷ h in
        if-Ensures partial (has fd s.clients) (call_ (closes (pos fd)) >> update_maxfd gone)
          (exit (negsuc 0)) os h1 Did
          (λ y.
            map-Ensures partial (update_maxfd gone os (closes (pos fd) ∷ h1))
              (OnlyMaxfd gone (closes (pos fd) ∷ h1)) Did
              (update_maxfd-Ensures partial tt gone os (closes (pos fd) ∷ h1))
              (λ u g (m, _, p, q). (
                leaves fd,
                (client, (n, q), ap service p ∙ view-leaves fd s.clients s.is_running t.distinct.1),
              )))
          (λ _. tt)

    reply_to-Does :
        (text : Bytes)
        → heard (os h (reads (pos fd) 1024)) ≡ some text
        → Ensures partial (reply_to fd text s) os (reads (pos fd) 1024 ∷ h) Did
    unfolding reply_to
    reply_to-Does text e =
        if-Ensures partial (bytes_eq text stop) (pure (record s { is_running = false }))
          (result_of (writes (pos fd) text) >>= λ n. error_handler n >>= λ _. pure s) os
          (reads (pos fd) 1024 ∷ h) Did (λ y. (stops fd, (client, (text, e, y, refl), refl)))
          (λ n.
            checked-Ensures partial (writes (pos fd) text) (λ _. pure s) os
              (reads (pos fd) 1024 ∷ h) Did (λ k z. (echoes fd text, (client, (e, n, refl), refl))))

    take_request-Does :
        (n : ℕ)
        → (os h (reads (pos fd) 1024)).result ≡ pos n
        → Ensures partial
            (take_request fd n (fill request_buffer (os h (reads (pos fd) 1024)).bytes) s)
            os
            (reads (pos fd) 1024 ∷ h)
            Did
    unfolding take_request
    take_request-Does n z =
        let c = reads (pos fd) 1024 in
        let buff : Bytes = fill request_buffer (os h c).bytes in
        if-Ensures partial (n == 0) (hang_up fd s)
          (or_fault (c_string buff) no_terminator >>= λ text. reply_to fd text s) os (c ∷ h) Did
          (λ y. hang_up-Does (rw (z, y) refl))
          (λ y.
            >>=-Ensures partial (or_fault (c_string buff) no_terminator)
              (λ text. reply_to fd text s) os (c ∷ h)
              (λ text g. (c_string buff ≡ some text) × (g ≡ c ∷ h)) Did
              (or_fault-Ensures partial (c_string buff) no_terminator os (c ∷ h) (λ _. tt))
              (λ text g q.
                subst (λ g. Ensures partial (reply_to fd text s) os g Did) (sym q.1)
                  (reply_to-Does text (rw (z, y) q.0))))

    handle_request-Does : Ensures partial (handle_request fd s) os h Did
    unfolding handle_request
    handle_request-Does =
        let c = reads (pos fd) 1024 in
        error_handler-then partial (os h c).result
          (λ n. take_request fd n (fill request_buffer (os h c).bytes) s) os (c ∷ h) Did
          (λ n z. take_request-Does n z)

  pub request_at-Refined :
      (fd : ℕ) (readset : List ℕ) (s : State) (h : List Call) (t : Tracks os listenfd s h)
      → has fd s.clients ≡ true
      → Ensures partial (request_at fd readset s) os h (Refined os listenfd (views os listenfd) s h)
  unfolding request_at
  request_at-Refined fd readset s h t client =
      let R : State → List Call → Type 0 = Refined os listenfd (views os listenfd) s h in
      if-Ensures partial (has fd readset) (handle_request fd s) (pure s) os h R
        (λ _.
          map-Ensures partial (handle_request fd s os h)
            (λ u g. Tracks os listenfd u g × Did fd s h t client u g) R
            (both-Post partial (handle_request fd s os h) (Tracks os listenfd) (Did fd s h t client)
              (handle_request-Tracks os listenfd fd s h t) (handle_request-Does fd s h t client))
            (λ u g. Does-Refined os listenfd (views os listenfd) s u h g))
        (λ _. stays-Refined os listenfd (views os listenfd) s h t)
