-- ===== src/Servers/Select/Handled.antt =====
-- What a request does to the descriptors of the server over `select`.
use unix_ipc.Prelude.{
  ℕ, ◌≡◌, refl, sym, subst, false, some, Bytes, pos, negsuc, List, ◌∷◌, ◌==◌, fill, c_string,
  bytes_eq,
}
use unix_ipc.Sys.{
  Call, Os, reads, writes, closes, pure, exit, call_, result_of, or_fault, no_terminator, ◌>>=◌,
  ◌>>◌,
}
use unix_ipc.Sys.Ensures.{partial, Ensures, >>=-Ensures, if-Ensures, or_fault-Ensures, map-Ensures}
use unix_ipc.Servers.Request.{
  error_handler, checked-Ensures, error_handler-then, has, stop, request_buffer,
}
use unix_ipc.Servers.Descriptors.{opened}
use unix_ipc.Servers.Select.Rules.{OnlyMaxfd, update_maxfd-Ensures}
use unix_ipc.Servers.Select.Watched.{Tracks, Tracks-same, dropped, dropped-Tracks, Tracks-call}
use unix_ipc.Servers.Select.{
  State, update_maxfd, hang_up, reply_to, take_request, handle_request, request_at,
}

module _ (os : Os) (listenfd : ℕ) where
  pub update_maxfd-Tracks :
      (s : State) (h : List Call)
      → Tracks os listenfd s h
      → Ensures partial (update_maxfd s) os h (Tracks os listenfd)
  update_maxfd-Tracks s h t =
      map-Ensures partial (update_maxfd s os h) (OnlyMaxfd s h) (Tracks os listenfd)
        (update_maxfd-Ensures partial tt s os h)
        (λ u g (m, _, p, q).
          rw (p, q) (Tracks-same os listenfd s (record s { maxfd = m }) h refl refl t))

  hang_up-Tracks :
      (fd : ℕ) (s : State) (h : List Call)
      → Tracks os listenfd s h
      → Ensures partial (hang_up fd s) os h (Tracks os listenfd)
  unfolding hang_up
  hang_up-Tracks fd s h t =
      let gone : State = dropped os listenfd fd s in
      if-Ensures partial (has fd s.clients) (call_ (closes (pos fd)) >> update_maxfd gone)
        (exit (negsuc 0)) os h (Tracks os listenfd)
        (λ y.
          update_maxfd-Tracks gone (closes (pos fd) ∷ h) (dropped-Tracks os listenfd fd s h y t))
        (λ _. tt)

  reply_to-Tracks :
      (fd : ℕ) (text : Bytes) (s : State) (h : List Call)
      → Tracks os listenfd s h
      → Ensures partial (reply_to fd text s) os h (Tracks os listenfd)
  unfolding reply_to opened
  reply_to-Tracks fd text s h t =
      if-Ensures partial (bytes_eq text stop) (pure (record s { is_running = false }))
        (result_of (writes (pos fd) text) >>= λ n. error_handler n >>= λ _. pure s) os h
        (Tracks os listenfd)
        (λ _. Tracks-same os listenfd s (record s { is_running = false }) h refl refl t)
        (λ _.
          checked-Ensures partial (writes (pos fd) text) (λ _. pure s) os h (Tracks os listenfd)
            (λ n e. Tracks-call os listenfd (writes (pos fd) text) s h (λ _. refl) t))

  take_request-Tracks :
      (fd n : ℕ) (buff : Bytes) (s : State) (h : List Call)
      → Tracks os listenfd s h
      → Ensures partial (take_request fd n buff s) os h (Tracks os listenfd)
  unfolding take_request
  take_request-Tracks fd n buff s h t =
      if-Ensures partial (n == 0) (hang_up fd s)
        (or_fault (c_string buff) no_terminator >>= λ text. reply_to fd text s) os h
        (Tracks os listenfd) (λ _. hang_up-Tracks fd s h t)
        (λ _.
          >>=-Ensures partial (or_fault (c_string buff) no_terminator) (λ text. reply_to fd text s)
            os h (λ text g. (c_string buff ≡ some text) × (g ≡ h)) (Tracks os listenfd)
            (or_fault-Ensures partial (c_string buff) no_terminator os h (λ _. tt))
            (λ text g q. reply_to-Tracks fd text s g (subst (Tracks os listenfd s) (sym q.1) t)))

  pub handle_request-Tracks :
      (fd : ℕ) (s : State) (h : List Call)
      → Tracks os listenfd s h
      → Ensures partial (handle_request fd s) os h (Tracks os listenfd)
  unfolding handle_request opened
  handle_request-Tracks fd s h t =
      let c = reads (pos fd) 1024 in
      error_handler-then partial (os h c).result
        (λ n. take_request fd n (fill request_buffer (os h c).bytes) s) os (c ∷ h)
        (Tracks os listenfd)
        (λ n _.
          take_request-Tracks fd n (fill request_buffer (os h c).bytes) s (c ∷ h)
            (Tracks-call os listenfd c s h (λ _. refl) t))

  pub request_at-Tracks :
      (fd : ℕ) (readset : List ℕ) (s : State) (h : List Call)
      → Tracks os listenfd s h
      → Ensures partial (request_at fd readset s) os h (Tracks os listenfd)
  unfolding request_at
  request_at-Tracks fd readset s h t =
      if-Ensures partial (has fd readset) (handle_request fd s) (pure s) os h (Tracks os listenfd)
        (λ _. handle_request-Tracks fd s h t) (λ _. t)
