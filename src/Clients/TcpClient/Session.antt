-- ===== src/Clients/TcpClient/Session.antt =====
-- What the TCP client says to its server, word by word.
use unix_ipc.Prelude.{
  ℕ, zero, suc, ◌≡◌, ◌<◌, ◌≤◌, ◌+◌, ◌-◌, refl, ap, sym, ◌∙◌, Bool, true, false, some, Bytes, pos,
  List, [], ◌∷◌, ◌++◌, length, arith, drop, replicate, length-append, length-drop, drop-drop,
  store_at, store_at-append, NoNul, bytes_eq, append_assoc, c_string, fill, fill_all, fill-nil,
  if◌then◌else◌,
}
use unix_ipc.Sys.{
  Call, Os, Reply, ok, reads, writes, prints, reads_word, pure, gives, returns, Answers, after,
}
use unix_ipc.Servers.Request.{
  request_buffer, length-request_buffer, stop, padded, c_string-padded, error_handler,
}
use unix_ipc.Clients.TcpClient.{read_line, exchange, talk, close}

-- A word of the input that fits the buffer with the end of its line.
abbrev pub IsWord : Bytes → Type 0
IsWord word = NoNul word × (length word < 1022)

-- The line of a word.
abbrev pub line : Bytes → Bytes
line word = word ++ 13 ∷ 10 ∷ []

drop-zeros : (k n : ℕ) → k < n → drop {A = ℕ} k (replicate n 0) ≡ 0 ∷ drop (suc k) (replicate n 0)
drop-zeros zero zero l = absurd (omega (arith, l))
drop-zeros zero (suc n) l = refl
drop-zeros (suc k) zero l = absurd (omega (arith, l))
drop-zeros (suc k) (suc n) l = drop-zeros k n (omega (arith, l))

room : (k : ℕ) → length (drop k request_buffer) ≡ 1024 - k
room k = length-drop k request_buffer ∙ ap (λ n. n - k) length-request_buffer

-- Where `xs` ends and zeros follow, `ys` is written.
pub written :
    (xs ys : Bytes)
    → length xs + length ys ≤ 1024
    → store_at (padded xs) (length xs) ys ≡ some (padded (xs ++ ys))
written xs ys l =
    store_at-append (length xs) xs (drop (length xs) request_buffer) ys refl
      (omega (arith, l, room (length xs)))
    ∙ ap some (
        ap (λ zs. xs ++ (ys ++ zs))
          (drop-drop (length ys) (length xs) request_buffer
            ∙ ap (λ n. drop n request_buffer) (sym (length-append xs ys)))
        ∙ sym (append_assoc xs ys (drop (length (xs ++ ys)) request_buffer)))

pub zero-padded : (word : Bytes) → length word < 1024 → padded (word ++ 0 ∷ []) ≡ padded word
unfolding request_buffer
zero-padded word l =
    append_assoc word (0 ∷ []) (drop (length (word ++ 0 ∷ [])) request_buffer)
    ∙ ap (λ n. word ++ 0 ∷ drop n request_buffer)
        (let e : length (word ++ 0 ∷ []) ≡ suc (length word) =
            omega (arith, length-append word (0 ∷ [])) in
          e)
    ∙ ap (λ zs. word ++ zs) (sym (drop-zeros (length word) 1024 l))

pub read_line_lem :
    (word : Bytes) (os : Os) (h : List Call)
    → IsWord word
    → os h reads_word ≡ gives word
    → read_line request_buffer os h ≡ (ok (padded (line word)), reads_word ∷ h)
unfolding read_line
read_line_lem word os h w e =
    let a =
      written [] (word ++ 0 ∷ []) (omega (arith, w.1, length-append word (0 ∷ [])))
      ∙ ap some (zero-padded word (omega (arith, w.1))) in
    let b = written word (13 ∷ []) (omega (arith, w.1)) in
    let c : store_at (padded (word ++ 13 ∷ [])) (length word + 1) (10 ∷ [])
        ≡ some (padded (line word)) =
      ap (λ n. store_at (padded (word ++ 13 ∷ [])) n (10 ∷ [])) (sym (length-append word (13 ∷ [])))
      ∙ written (word ++ 13 ∷ []) (10 ∷ []) (omega (arith, w.1, length-append word (13 ∷ [])))
      ∙ ap (λ xs. some (padded xs)) (append_assoc word (13 ∷ []) (10 ∷ [])) in
    rw (e, a, c_string-padded word w.0 (omega (arith, w.1)), b, c) refl

pub line-NoNul : (word : Bytes) → NoNul word → NoNul (line word)
line-NoNul [] n = ground arith
line-NoNul (x ∷ word) n = (n.0, line-NoNul word n.1)

pub length-line : (word : Bytes) → length (line word) ≡ length word + 2
length-line word = length-append word (13 ∷ 10 ∷ [])

-- An answer of the whole buffer shows the line that it begins with.
shows_padded :
    (word : Bytes)
    → IsWord word
    → c_string (fill (padded (line word)) (padded (line word))) ≡ some (line word)
shows_padded word w =
    ap c_string (fill_all (padded (line word)) (padded (line word)) refl)
    ∙ c_string-padded (line word) (line-NoNul word w.0) (omega (arith, w.1, length-line word))

exchange_lem :
    (sockfd : ℕ) (word answer shown : Bytes) (z : ℕ) (os : Os) (h : List Call)
    → c_string (fill (padded (line word)) answer) ≡ some shown
    → os h (writes (pos sockfd) (line word)) ≡ returns (pos z)
    → os (writes (pos sockfd) (line word) ∷ h) (reads (pos sockfd) 1024) ≡ gives answer
    → exchange sockfd (padded (line word)) (line word) os h
      ≡ (ok tt, prints shown ∷ reads (pos sockfd) 1024 ∷ writes (pos sockfd) (line word) ∷ h)
unfolding exchange error_handler
exchange_lem sockfd word answer shown z os h c e f = rw (e, f, c) refl

-- What the user types before the last word.
abbrev pub IsTalk : List Bytes → Type 0
IsTalk [] = Unit {0}
IsTalk (word ∷ words) =
    IsWord word
    × (bytes_eq (line word) close ≡ false)
    × (bytes_eq (line word) stop ≡ false)
    × IsTalk words

-- A session: each word is sent as a line, the answer begins with that line and fills the buffer,
-- and the line is shown. It ends with "close", or with "stop", after which nothing is received.
abbrev pub session : ℕ → List Bytes → Bool → List (Call × Reply)
session fd [] true = (reads_word, gives (99 ∷ 108 ∷ 111 ∷ 115 ∷ 101 ∷ [])) ∷ []
session fd [] false =
    (reads_word, gives (115 ∷ 116 ∷ 111 ∷ 112 ∷ []))
    ∷ (writes (pos fd) stop, returns (pos 6))
    ∷ (reads (pos fd) 1024, gives [])
    ∷ (prints stop, returns (pos 0))
    ∷ []
session fd (word ∷ words) closes =
    (reads_word, gives word)
    ∷ (writes (pos fd) (line word), returns (pos (length (line word))))
    ∷ (reads (pos fd) 1024, gives (padded (line word)))
    ∷ (prints (line word), returns (pos 0))
    ∷ session fd words closes

take_word :
    (fuel fd : ℕ) (word answer shown : Bytes) (z : ℕ) (os : Os) (h : List Call)
    → IsWord word
    → bytes_eq (line word) close ≡ false
    → c_string (fill (padded (line word)) answer) ≡ some shown
    → Answers os h (
        (reads_word, gives word)
        ∷ (writes (pos fd) (line word), returns (pos z))
        ∷ (reads (pos fd) 1024, gives answer)
        ∷ [])
    → talk (suc fuel) fd os h
      ≡ (if bytes_eq (line word) stop then pure tt else talk fuel fd) os
          (prints shown ∷ reads (pos fd) 1024 ∷ writes (pos fd) (line word) ∷ reads_word ∷ h)
unfolding talk
take_word fuel fd word answer shown z os h w c e (a, (b, (d, _))) =
    let x = exchange_lem fd word answer shown z os (reads_word ∷ h) e b d in
    let y =
      c_string-padded (line word) (line-NoNul word w.0) (omega (arith, w.1, length-line word)) in
    rw (read_line_lem word os h w a, y, c, x) refl

take_close :
    (fuel fd : ℕ) (os : Os) (h : List Call)
    → os h reads_word ≡ gives (99 ∷ 108 ∷ 111 ∷ 115 ∷ 101 ∷ [])
    → talk (suc fuel) fd os h ≡ (ok tt, reads_word ∷ h)
unfolding talk
take_close fuel fd os h a =
    let word : Bytes = 99 ∷ 108 ∷ 111 ∷ 115 ∷ 101 ∷ [] in
    let w : IsWord word = ground arith in
    rw (read_line_lem word os h w a, c_string-padded close (line-NoNul word w.0) (omega arith)) refl

shows_nothing :
    (word : Bytes) → IsWord word → c_string (fill (padded (line word)) []) ≡ some (line word)
shows_nothing word w =
    ap c_string (fill-nil (padded (line word)))
    ∙ c_string-padded (line word) (line-NoNul word w.0) (omega (arith, w.1, length-line word))

pub talk_lem :
    (fuel fd : ℕ) (words : List Bytes) (closes : Bool) (os : Os) (h : List Call)
    → IsTalk words
    → length words < fuel
    → Answers os h (session fd words closes)
    → talk fuel fd os h ≡ (ok tt, after (session fd words closes) h)
talk_lem zero fd words closes os h t l a = absurd (omega (arith, l))
talk_lem (suc fuel) fd [] true os h t l a = take_close fuel fd os h a.0
talk_lem (suc fuel) fd [] false os h t l (a, (b, (c, _))) =
    let word : Bytes = 115 ∷ 116 ∷ 111 ∷ 112 ∷ [] in
    let w : IsWord word = ground arith in
    take_word fuel fd word [] stop 6 os h w refl (shows_nothing word w) (a, (b, (c, tt)))
talk_lem (suc fuel) fd (word ∷ words) closes os h (w, n, m, t) l (a, (b, (c, (d, r)))) =
    let e =
      take_word fuel fd word (padded (line word)) (line word) (length (line word)) os h w n
        (shows_padded word w) (a, (b, (c, tt))) in
    (rw m at e)
    ∙ talk_lem fuel fd words closes os
        (prints (line word) ∷ reads (pos fd) 1024 ∷ writes (pos fd) (line word) ∷ reads_word ∷ h) t
        (omega (arith, l)) r
