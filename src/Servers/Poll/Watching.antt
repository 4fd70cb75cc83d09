-- ===== src/Servers/Poll/Watching.antt =====
-- The entries of the server over `poll` and the descriptors that are open.
use unix_ipc.Prelude.{
  ℕ, zero, suc, ◌≤◌, ◌<◌, ◌≡◌, ◌≢◌, refl, sym, ap, subst, ◌∙◌, true, false, some, Bytes, pos,
  negsuc, List, [], ◌∷◌, length, get_elem?, ◌==◌, arith, fill, c_string, bytes_eq,
}
use unix_ipc.Sys.{
  Call, Os, reads, writes, closes, pure, or_fault, call_, exit, no_terminator, result_of, ◌>>=◌,
  ◌>>◌,
}
use unix_ipc.Sys.Ensures.{inside, Ensures, >>=-Ensures, if-Ensures, or_fault-Ensures}
use unix_ipc.Servers.Request.{
  error_handler, checked-Ensures, error_handler-then, has, stop, request_buffer,
}
use unix_ipc.Servers.Descriptors.{opened, Distinct, has-remove}
use unix_ipc.Servers.Select
use unix_ipc.Servers.Select.Watched.{has-erase, erase-Distinct}
use unix_ipc.Servers.Poll.{
  Entry, State, fds, polled, erase, hang_up, reply_to, take_request, handle_request,
}

-- The listening descriptor is that of the first entry, no descriptor has two entries, and exactly
-- those of the entries are open.
pub record Watches (os : Os) (listenfd : ℕ) (s : State) (h : List Call) : Type 0 where
  pub clients : List ℕ
  pub entries : fds s.clients ≡ listenfd ∷ clients
  pub open_fds : (fd : ℕ) → has fd (opened os h) ≡ has fd (listenfd ∷ clients)
  pub distinct : Distinct (listenfd ∷ clients)

fds-erase : (fd : ℕ) (es : List Entry) → fds (erase fd es) ≡ Select.erase fd (fds es)
unfolding erase Select.erase
fds-erase fd [] = refl
fds-erase fd (e ∷ es) = ground (arith, fds-erase fd es)

-- The descriptors once the entry of a client is erased.
pub entries-erase :
    (fd l : ℕ) (es : List Entry) (clients : List ℕ)
    → l ≢ fd
    → fds es ≡ l ∷ clients
    → fds (erase fd es) ≡ l ∷ Select.erase fd clients
unfolding Select.erase
entries-erase fd l es clients apart e =
    fds-erase fd es ∙ ap (Select.erase fd) e ∙ ground (arith, apart)

pub fds-polled : (es : List Entry) (rs : List ℕ) → fds (polled es rs) ≡ fds es
unfolding polled
fds-polled [] rs = refl
fds-polled (e ∷ es) [] = ap (◌∷◌ e.fd) (fds-polled es [])
fds-polled (e ∷ es) (r ∷ rs) = ap (◌∷◌ e.fd) (fds-polled es rs)

has-get_elem? :
    (es : List Entry) (i : ℕ) (e : Entry) → get_elem? es i ≡ some e → has e.fd (fds es) ≡ true
has-get_elem? [] i e p = cc
has-get_elem? (x ∷ es) zero e p = ground arith
has-get_elem? (x ∷ es) (suc i) e p = ground (arith, has-get_elem? es i e p)

-- An entry after the first is that of a client.
pub client_at :
    (es : List Entry) (i l : ℕ) (cs : List ℕ) (e : Entry)
    → 0 < i
    → get_elem? es i ≡ some e
    → fds es ≡ l ∷ cs
    → has e.fd cs ≡ true
client_at [] i l cs e z p q = cc
client_at (x ∷ es) zero l cs e z p q = absurd (omega arith)
client_at (x ∷ es) (suc i) l cs e z p q = ground (arith, has-get_elem? es i e p)

-- A call that neither opens nor closes.
abbrev pub IsNeutral : Os → Call → Type 0
IsNeutral os c = (h : List Call) → opened os (c ∷ h) ≡ opened os h

pub length-fds : (es : List Entry) → length (fds es) ≡ length es
length-fds [] = refl
length-fds (e ∷ es) = ap suc (length-fds es)

pub length-erase : (fd : ℕ) (es : List Entry) → length (erase fd es) ≤ length es
unfolding erase
length-erase fd [] = omega arith
length-erase fd (e ∷ es) = ground (arith, length-erase fd es)

module _ (os : Os) (listenfd : ℕ) where
  -- What holds after a step, of a state with at most `n` entries.
  abbrev pub Kept : ℕ → State → List Call → Type 0
  Kept n s h = Watches os listenfd s h × (length s.clients ≤ n)

  pub Watches-call :
      (c : Call) (s : State) (h : List Call)
      → IsNeutral os c
      → Watches os listenfd s h
      → Watches os listenfd s (c ∷ h)
  Watches-call c s h n w = record {
    clients = w.clients;
    entries = w.entries;
    open_fds = λ fd. rw (n h) (w.open_fds fd);
    distinct = w.distinct;
  }

  Watches-read :
      (fd : ℕ) (s : State) (h : List Call)
      → Watches os listenfd s h
      → Watches os listenfd s (reads (pos fd) 1024 ∷ h)
  unfolding opened
  Watches-read fd s h = Watches-call (reads (pos fd) 1024) s h (λ _. refl)

  Watches-write :
      (fd : ℕ) (text : Bytes) (s : State) (h : List Call)
      → Watches os listenfd s h
      → Watches os listenfd s (writes (pos fd) text ∷ h)
  unfolding opened
  Watches-write fd text s h = Watches-call (writes (pos fd) text) s h (λ _. refl)

  hang_up-Watches :
      (fd : ℕ) (s : State) (h : List Call)
      → Watches os listenfd s h
      → listenfd ≢ fd
      → has fd (fds s.clients) ≡ true
      → Watches os listenfd (record s { clients = erase fd s.clients }) (closes (pos fd) ∷ h)
  unfolding opened Select.erase
  hang_up-Watches fd s h w apart y = record {
    clients = Select.erase fd w.clients;
    entries = entries-erase fd listenfd s.clients w.clients apart w.entries;
    open_fds = λ x. ground (
      arith,
      apart,
      has-remove x fd (opened os h),
      has-erase x fd w.clients w.distinct.1,
      w.open_fds x,
    );
    distinct = (
      ground (arith, has-erase listenfd fd w.clients w.distinct.1, w.distinct.0),
      erase-Distinct fd w.clients w.distinct.1,
    );
  }

  reply_to-Kept :
      (fd : ℕ) (text : Bytes) (s : State) (h : List Call)
      → Watches os listenfd s h
      → Ensures inside (reply_to fd text s) os h (Kept (length s.clients))
  unfolding reply_to
  reply_to-Kept fd text s h w =
      if-Ensures inside (bytes_eq text stop) (pure (record s { is_running = false }))
        (result_of (writes (pos fd) text) >>= λ n. error_handler n >>= λ _. pure s) os h
        (Kept (length s.clients))
        (λ _. (
          record {
            clients = w.clients;
            entries = w.entries;
            open_fds = w.open_fds;
            distinct = w.distinct;
          },
          omega arith,
        ))
        (λ _.
          checked-Ensures inside (writes (pos fd) text) (λ _. pure s) os h (Kept (length s.clients))
            (λ n e. (Watches-write fd text s h w, omega arith)))

  take_request-Kept :
      (fd n : ℕ) (buff : Bytes) (s : State) (h : List Call)
      → Watches os listenfd s h
      → listenfd ≢ fd
      → Ensures inside (take_request fd n buff s) os h (Kept (length s.clients))
  unfolding take_request hang_up
  take_request-Kept fd n buff s h w apart =
      let gone : State = record s { clients = erase fd s.clients } in
      if-Ensures inside (n == 0) (hang_up fd s)
        (or_fault (c_string buff) no_terminator >>= λ text. reply_to fd text s) os h
        (Kept (length s.clients))
        (λ _.
          if-Ensures inside (has fd (fds s.clients)) (call_ (closes (pos fd)) >> pure gone)
            (exit (negsuc 0)) os h (Kept (length s.clients))
            (λ y. (hang_up-Watches fd s h w apart y, length-erase fd s.clients)) (λ _. tt))
        (λ _.
          >>=-Ensures inside (or_fault (c_string buff) no_terminator) (λ text. reply_to fd text s)
            os h (λ text g. (c_string buff ≡ some text) × (g ≡ h)) (Kept (length s.clients))
            (or_fault-Ensures inside (c_string buff) no_terminator os h (λ _. tt))
            (λ text g q. reply_to-Kept fd text s g (subst (Watches os listenfd s) (sym q.1) w)))

  pub handle_request-Kept :
      (fd : ℕ) (s : State) (h : List Call)
      → Watches os listenfd s h
      → listenfd ≢ fd
      → Ensures inside (handle_request fd s) os h (Kept (length s.clients))
  unfolding handle_request
  handle_request-Kept fd s h w apart =
      let c = reads (pos fd) 1024 in
      error_handler-then inside (os h c).result
        (λ n. take_request fd n (fill request_buffer (os h c).bytes) s) os (c ∷ h)
        (Kept (length s.clients))
        (λ n e.
          take_request-Kept fd n (fill request_buffer (os h c).bytes) s (c ∷ h)
            (Watches-read fd s h w) apart)
