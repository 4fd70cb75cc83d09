-- ===== src/Servers/Poll/Answering.antt =====
-- A round of the server over `poll` in which clients send texts: each is answered, in order.
mod Tests
use unix_ipc.Prelude.{
  ℕ, zero, suc, ◌+◌, ◌<◌, ◌≡◌, ◌≢◌, refl, sym, ap, subst₂, ◌∙◌, Bool, true, false, Option, none,
  some, inl, inr, Bytes, pos, List, [], ◌∷◌, ◌++◌, map, length, get_elem?, get_elem?-append, ltb,
  ◌==◌, if◌then◌else◌, arith, append_assoc, append-nil, Option-cases, length-append, Bool-cases,
  NoNul, bytes_eq,
}
use unix_ipc.Sys.{Call, Reply, Os, ok, reads, writes, polls, returns, gives, Answers, after}
use unix_ipc.Servers.Request.{error_handler, c_string-fill, stop}
use unix_ipc.Servers.Poll.{
  Entry, State, fds, polled, is_ready, handle_request, take_request, reply_to, request_at,
  requests_from, requests, after_poll, round,
}

-- Whether an entry reports a request, and nothing else.
abbrev pub reports : Option ℕ → Bool
reports none = false
reports (some r) = r == 64

-- A text that goes back.
pub record IsText (text : Bytes) : Type 0 where
  pub no_nul : NoNul text
  pub some_byte : 0 < length text
  pub short : length text < 1024
  pub not_stop : bytes_eq text stop ≡ false

module _ (text : ℕ → Bytes) where
  -- The ready clients, in the order of their entries, are read and answered, where the client of
  -- descriptor `fd` sends `text fd`.
  abbrev pub answers : List Entry → List (Call × Reply)
  answers [] = []
  answers (e ∷ es) =
      if reports e.revents
      then ((reads (pos e.fd) 1024, gives (text e.fd))
          ∷ (writes (pos e.fd) (text e.fd), returns (pos (length (text e.fd))))
          ∷ answers es)
      else answers es

  -- Every ready client sends a text.
  abbrev pub AllText : List Entry → Type 0
  AllText [] = Unit {0}
  AllText (e ∷ es) = (reports e.revents ≡ true → IsText (text e.fd)) × AllText es

-- Every `revents` is set, as `poll` leaves them.
abbrev AllSet : List Entry → Type 0
AllSet [] = Unit {0}
AllSet (e ∷ es) = (e.revents ≢ none) × AllSet es

polled-AllSet : (es : List Entry) (rs : List ℕ) → AllSet (polled es rs)
unfolding polled
polled-AllSet [] rs = tt
polled-AllSet (e ∷ es) [] = ((λ z. cc), polled-AllSet es [])
polled-AllSet (e ∷ es) (r ∷ rs) = ((λ z. cc), polled-AllSet es rs)

handle_request-text :
    (fd : ℕ) (text : Bytes) (s : State) (os : Os) (h : List Call)
    → IsText text
    → os h (reads (pos fd) 1024) ≡ gives text
    → os (reads (pos fd) 1024 ∷ h) (writes (pos fd) text) ≡ returns (pos (length text))
    → handle_request fd s os h ≡ (ok s, writes (pos fd) text ∷ reads (pos fd) 1024 ∷ h)
unfolding handle_request take_request reply_to error_handler
handle_request-text fd text s os h t a b =
    let z : (length text == 0) ≡ false = ground (arith, t.some_byte) in
    rw (a, c_string-fill text t.no_nul t.short, z, t.not_stop, b) refl

module _ (text : ℕ → Bytes) (os : Os) (b : Bool) where
  abbrev with_entries : List Entry → State
  with_entries es = record { clients = es; is_running = b }

  is_ready-reports :
      (e : Entry) (h : List Call) → e.revents ≢ none → is_ready e os h ≡ (ok (reports e.revents), h)
  unfolding is_ready
  is_ready-reports e h n = elim (Option-cases e.revents) [
    | inl z ↦ absurd (n z)
    | inr (r, z) ↦ rw z refl
  ]

  -- One entry, and what is left of the script.
  request_at-answers :
      (e : Entry) (es : List Entry) (s : State) (h : List Call)
      → e.revents ≢ none
      → (reports e.revents ≡ true → IsText (text e.fd))
      → Answers os h (answers text (e ∷ es))
      → (g : List Call) × (request_at e s os h ≡ (ok s, g))
        × Answers os g (answers text es)
        × (after (answers text (e ∷ es)) h ≡ after (answers text es) g)
  unfolding request_at
  request_at-answers e es s h set t a = elim (Bool-cases (reports e.revents)) [
    | inr n ↦ let a' = rw n at a in (h, rw (is_ready-reports e h set, n) refl, a', rw n refl)
    | inl y ↦
        let (a1, (a2, a')) = rw y at a in
        (
          writes (pos e.fd) (text e.fd) ∷ reads (pos e.fd) 1024 ∷ h,
          rw (is_ready-reports e h set, y)
              (handle_request-text e.fd (text e.fd) s os h (t y) a1 a2),
          a',
          rw y refl,
        )
  ]

  requests_from-next :
      (fuel i : ℕ) (s : State) (e : Entry) (h g : List Call)
      → ltb i (length s.clients) ≡ true
      → get_elem? s.clients i ≡ some e
      → request_at e s os h ≡ (ok s, g)
      → requests_from (suc fuel) i s os h ≡ requests_from fuel (i + 1) s os g
  unfolding requests_from
  requests_from-next fuel i s e h g l p q = rw (l, p, q) refl

  requests_from-answers :
      (es pre : List Entry) (fuel : ℕ) (h : List Call)
      → length es < fuel
      → AllSet es
      → AllText text es
      → Answers os h (answers text es)
      → requests_from fuel (length pre) (with_entries (pre ++ es)) os h
        ≡ (ok (with_entries (pre ++ es)), after (answers text es) h)
  unfolding requests_from
  requests_from-answers es pre zero h l set t a = absurd (omega (arith, l))
  requests_from-answers [] pre (suc fuel) h l set t a =
      let z : ltb (length pre) (length (pre ++ [])) ≡ false = ground (arith, append-nil pre) in
      rw z refl
  requests_from-answers (e ∷ es) pre (suc fuel) h l set t a =
      let s : State = with_entries (pre ++ e ∷ es) in
      let more : ltb (length pre) (length (pre ++ e ∷ es)) ≡ true =
        ground (arith, length-append pre (e ∷ es)) in
      let (g, one, a', last) = request_at-answers e es s h set.0 t.0 a in
      let next : length pre + 1 ≡ length (pre ++ e ∷ []) =
        omega (arith, length-append pre (e ∷ [])) in
      requests_from-next fuel (length pre) s e h g more (get_elem?-append pre es e) one
      ∙ subst₂
          (λ i xs.
            requests_from fuel i (with_entries xs) os g
            ≡ (ok (with_entries xs), after (answers text es) g))
          (sym next) (append_assoc pre (e ∷ []) es)
          (requests_from-answers es (pre ++ e ∷ []) fuel g (omega (arith, l)) set.1 t.1 a')
      ∙ ap (λ k. (ok s, k)) (sym last)

-- Where `poll` does not report the listening descriptor ready, and each client that it reports
-- ready, with exactly POLLRDNORM, sends a text of 1 to 1023 bytes without a NUL that is not "stop"
-- with its line end, and each `write` takes it whole, a round of the server over `poll` returns: it
-- reads every ready client once and sends its text back, in the order of the entries, calls nothing
-- else, and keeps its entries with what `poll` reported.
pub round-answers :
    (listenfd n r : ℕ) (rs : List ℕ) (first : Entry) (es : List Entry) (b : Bool) (text : ℕ → Bytes)
    (os : Os) (h : List Call)
    → let c = polls (map pos (fds (first ∷ es))) in
      (os h c).result ≡ pos n
      → (os h c).revents ≡ r ∷ rs
      → r ≢ 64
      → AllText text (polled es rs)
      → Answers os (c ∷ h) (answers text (polled es rs))
      → round listenfd (record { clients = first ∷ es; is_running = b }) os h ≡ (
        ok (record { clients = record first { revents = some r } ∷ polled es rs; is_running = b }),
        after (answers text (polled es rs)) (c ∷ h),
      )
unfolding round after_poll requests is_ready polled error_handler
round-answers listenfd n r rs first es b text os h p q d t a =
    let c : Call = polls (map pos (fds (first ∷ es))) in
    let z : (r == 64) ≡ false = ground (arith, d) in
    rw (p, q, z)
      (requests_from-answers text os b (polled es rs) (record first { revents = some r } ∷ [])
        (suc (suc (length (polled es rs)))) (c ∷ h) (omega arith) (polled-AllSet es rs) t a)
