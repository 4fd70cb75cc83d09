-- ===== src/Servers/Poll/Serving.antt =====
-- The server over `poll` as a service: what a request does to it.
pub mod Requests
pub mod Rounds
pub mod Echo
use unix_ipc.Prelude.{
  none, ℕ, zero, suc, ◌+◌, ◌<◌, ◌≡◌, ◌≢◌, refl, sym, ap, subst, ◌∙◌, Bool, true, false, ◌||◌, some,
  inl, inr, Bytes, ℤ, pos, negsuc, List, [], ◌∷◌, ◌++◌, map, length, get_elem?, ltb, ◌==◌,
  if◌then◌else◌, arith, fill, c_string, bytes_eq, ℤ-cases, Bool-cases, Option-cases,
}
use mathlib.Core.List.{map-append}
use unix_ipc.Sys.{
  Call, Os, ok, Prog, reads, writes, closes, accepts, polls, pure, exit, call_, result_of, or_fault,
  out_of_bounds, no_terminator, ◌>>=◌, ◌>>◌,
}
use unix_ipc.Sys.Ensures.{
  both-Post, partial, inside, Ensures, >>=-Ensures, if-Ensures, or_fault-Ensures, Ensures-partial,
  map-Ensures,
}
use unix_ipc.Servers.Request.{
  error_handler, checked-Ensures, error_handler-then, has, stop, request_buffer,
}
use unix_ipc.Servers.Descriptors.{opened, GivesFresh, Distinct}
use unix_ipc.Servers.Select
use unix_ipc.Servers.Select.Watched.{client-ne-listenfd}
use unix_ipc.Servers.Service.{
  Service, Event, waits, joins, echoes, leaves, stops, step, heard, view_of, view-joins,
  view-leaves,
}
use unix_ipc.Servers.Service.Refinement.{
  Views, Refined, Does, stays-Refined, Does-Refined, >>=-Refined, Provides,
}
use unix_ipc.Servers.Poll.{
  Entry, State, fds, erase, new_entry, polled, is_ready, hang_up, reply_to, take_request,
  handle_request, request_at, requests_from, requests, accept_client, after_poll, round, serve,
}
use unix_ipc.Servers.Poll.Watching.{
  Watches, Kept, entries-erase, fds-polled, client_at, handle_request-Kept,
}
use unix_ipc.Servers.Poll.Requests.{is_ready-Ensures}

abbrev pub rest : List ℕ → List ℕ
rest [] = []
rest (x ∷ xs) = xs

-- The clients are the descriptors of the entries after the first.
abbrev pub service : State → Service
service s = view_of (rest (fds s.clients)) s.is_running

abbrev pub views : Os → ℕ → Views State
views os listenfd = record { view = service; Holds = Watches os listenfd }

module _ (os : Os) (listenfd : ℕ) where
  abbrev Did : State → List Call → State → List Call → Type 0
  Did = Does os listenfd (views os listenfd)

  pub view-entries :
      (s : State) (clients : List ℕ)
      → fds s.clients ≡ listenfd ∷ clients
      → service s ≡ view_of clients s.is_running
  view-entries s clients e = ap (λ xs. view_of (rest xs) s.is_running) e

  -- What the server does after a `read` of a client that it serves.
  module _ (fd : ℕ) (s : State) (h : List Call) (w : Watches os listenfd s h)
      (client : has fd w.clients ≡ true) where
    apart : listenfd ≢ fd
    apart = client-ne-listenfd listenfd fd w.clients w.distinct.0 client

    served : has fd (rest (fds s.clients)) ≡ true
    served = ap (λ xs. has fd (rest xs)) w.entries ∙ client

    hung_up : service (record s { clients = erase fd s.clients }) ≡ step (leaves fd) (service s)
    hung_up =
        view-entries (record s { clients = erase fd s.clients }) (Select.erase fd w.clients)
          (entries-erase fd listenfd s.clients w.clients apart w.entries)
        ∙ view-leaves fd w.clients s.is_running w.distinct.1
        ∙ ap (step (leaves fd)) (sym (view-entries s w.clients w.entries))

    hang_up-Does :
        heard (os h (reads (pos fd) 1024)) ≡ none
        → Ensures partial (hang_up fd s) os (reads (pos fd) 1024 ∷ h) (Did s h)
    unfolding hang_up
    hang_up-Does n =
        let gone : State = record s { clients = erase fd s.clients } in
        if-Ensures partial (has fd (fds s.clients)) (call_ (closes (pos fd)) >> pure gone)
          (exit (negsuc 0)) os (reads (pos fd) 1024 ∷ h) (Did s h)
          (λ y. (leaves fd, (served, (n, refl), hung_up))) (λ _. tt)

    reply_to-Does :
        (text : Bytes)
        → heard (os h (reads (pos fd) 1024)) ≡ some text
        → Ensures partial (reply_to fd text s) os (reads (pos fd) 1024 ∷ h) (Did s h)
    unfolding reply_to
    reply_to-Does text t =
        if-Ensures partial (bytes_eq text stop) (pure (record s { is_running = false }))
          (result_of (writes (pos fd) text) >>= λ n. error_handler n >>= λ _. pure s) os
          (reads (pos fd) 1024 ∷ h) (Did s h) (λ y. (stops fd, (served, (text, t, y, refl), refl)))
          (λ n.
            checked-Ensures partial (writes (pos fd) text) (λ _. pure s) os
              (reads (pos fd) 1024 ∷ h) (Did s h)
              (λ k e. (echoes fd text, (served, (t, n, refl), refl))))

    take_request-Does :
        (n : ℕ)
        → (os h (reads (pos fd) 1024)).result ≡ pos n
        → Ensures partial
            (take_request fd n (fill request_buffer (os h (reads (pos fd) 1024)).bytes) s)
            os
            (reads (pos fd) 1024 ∷ h)
            (Did s h)
    unfolding take_request
    take_request-Does n z =
        let c = reads (pos fd) 1024 in
        let buff : Bytes = fill request_buffer (os h c).bytes in
        if-Ensures partial (n == 0) (hang_up fd s)
          (or_fault (c_string buff) no_terminator >>= λ text. reply_to fd text s) os (c ∷ h)
          (Did s h) (λ y. hang_up-Does (rw (z, y) refl))
          (λ y.
            >>=-Ensures partial (or_fault (c_string buff) no_terminator)
              (λ text. reply_to fd text s) os (c ∷ h)
              (λ text g. (c_string buff ≡ some text) × (g ≡ c ∷ h)) (Did s h)
              (or_fault-Ensures partial (c_string buff) no_terminator os (c ∷ h) (λ _. tt))
              (λ text g q.
                subst (λ g. Ensures partial (reply_to fd text s) os g (Did s h)) (sym q.1)
                  (reply_to-Does text (rw (z, y) q.0))))

    pub handle_request-Refined :
        Ensures partial (handle_request fd s) os h (Refined os listenfd (views os listenfd) s h)
    unfolding handle_request
    handle_request-Refined =
        let c = reads (pos fd) 1024 in
        map-Ensures partial (handle_request fd s os h)
          (λ u g. Watches os listenfd u g × Did s h u g)
          (Refined os listenfd (views os listenfd) s h)
          (both-Post partial (handle_request fd s os h) (Watches os listenfd) (Did s h)
            (map-Ensures partial (handle_request fd s os h) (Kept os listenfd (length s.clients))
              (Watches os listenfd)
              (Ensures-partial inside (handle_request fd s os h)
                (Kept os listenfd (length s.clients))
                (handle_request-Kept os listenfd fd s h w apart))
              (λ u g k. k.0))
            (error_handler-then partial (os h c).result
              (λ n. take_request fd n (fill request_buffer (os h c).bytes) s) os (c ∷ h) (Did s h)
              (λ n z. take_request-Does n z)))
          (λ u g. Does-Refined os listenfd (views os listenfd) s u h g)
