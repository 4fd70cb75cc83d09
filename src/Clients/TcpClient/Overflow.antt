-- ===== src/Clients/TcpClient/Overflow.antt =====
-- Words that do not fit the buffer of the TCP client with the end of their line.
use unix_ipc.Prelude.{
  ℕ, suc, ◌≡◌, ◌<◌, ◌≤◌, ◌+◌, refl, ap, sym, ◌∙◌, some, none, inl, inr, ◌⊎◌, Bytes, List, [], ◌∷◌,
  ◌++◌, length, length-append, arith, Bool-cases, ◌==◌, drop_all, store_at, store_at_overflow,
  NoNul, append-nil, append_assoc, c_string-NoNul,
}
use unix_ipc.Sys.{Call, Os, faults, Fault, out_of_bounds, no_terminator, reads_word, gives}
use unix_ipc.Servers.Request.{request_buffer, length-request_buffer, padded, c_string-padded}
use unix_ipc.Clients.TcpClient.{read_line, talk}
use unix_ipc.Clients.TcpClient.Session.{line, line-NoNul, length-line, written, zero-padded}

-- The word of 1022 bytes: its line fills the buffer.
full : (word : Bytes) → length word ≡ 1022 → padded (line word) ≡ line word
full word l =
    ap (λ zs. line word ++ zs)
      (drop_all (length (line word)) request_buffer
        (omega (arith, l, length-line word, length-request_buffer)))
    ∙ append-nil (line word)

length-padded : (word : Bytes) → length word ≡ 1024 → padded word ≡ word
length-padded word l =
    ap (λ zs. word ++ zs)
      (drop_all (length word) request_buffer (omega (arith, l, length-request_buffer)))
    ∙ append-nil word

stored :
    (word : Bytes)
    → length word < 1024
    → store_at request_buffer 0 (word ++ 0 ∷ []) ≡ some (padded word)
stored word l =
    written [] (word ++ 0 ∷ []) (omega (arith, l, length-append word (0 ∷ [])))
    ∙ ap some (zero-padded word l)

-- The carriage return is in place, and one byte after it is past the end of the buffer.
ends_outside :
    (word : Bytes)
    → length word ≡ 1023
    → store_at (padded (word ++ 13 ∷ [])) (length word + 1) (10 ∷ []) ≡ none
ends_outside word l = store_at_overflow (padded (word ++ 13 ∷ [])) (length word + 1) (10 ∷ []) (
    omega (
      arith,
      l,
      length-append word (13 ∷ []),
      ap length (length-padded (word ++ 13 ∷ []) (omega (arith, l, length-append word (13 ∷ [])))),
    ))

ends_inside :
    (word : Bytes)
    → length word ≡ 1022
    → store_at (padded (word ++ 13 ∷ [])) (length word + 1) (10 ∷ []) ≡ some (line word)
ends_inside word l =
    ap (λ n. store_at (padded (word ++ 13 ∷ [])) n (10 ∷ [])) (sym (length-append word (13 ∷ [])))
    ∙ written (word ++ 13 ∷ []) (10 ∷ []) (omega (arith, l, length-append word (13 ∷ [])))
    ∙ ap (λ xs. some (padded xs)) (append_assoc word (13 ∷ []) (10 ∷ []))
    ∙ ap some (full word l)

module _ (fuel fd : ℕ) (word : Bytes) (os : Os) (h : List Call) (n : NoNul word)
    (e : os h reads_word ≡ gives word) where
  talk_1022 : length word ≡ 1022 → talk (suc fuel) fd os h ≡ (faults no_terminator, reads_word ∷ h)
  unfolding talk read_line
  talk_1022 l =
      rw
        (
          e,
          stored word (omega (arith, l)),
          c_string-padded word n (omega (arith, l)),
          written word (13 ∷ []) (omega (arith, l)),
          ends_inside word l,
          c_string-NoNul (line word) (line-NoNul word n),
        )
        refl

  talk_1023 : length word ≡ 1023 → talk (suc fuel) fd os h ≡ (faults out_of_bounds, reads_word ∷ h)
  unfolding talk read_line
  talk_1023 l =
      rw
        (
          e,
          stored word (omega (arith, l)),
          c_string-padded word n (omega (arith, l)),
          written word (13 ∷ []) (omega (arith, l)),
          ends_outside word l,
        )
        refl

  talk_1024 : 1024 ≤ length word → talk (suc fuel) fd os h ≡ (faults out_of_bounds, reads_word ∷ h)
  unfolding talk read_line
  talk_1024 l =
      rw
        (
          e,
          store_at_overflow request_buffer 0 (word ++ 0 ∷ [])
              (omega (arith, l, length-append word (0 ∷ []), length-request_buffer)),
        )
        refl

-- A word of 1022 bytes or more without a NUL takes the TCP client outside its buffer before
-- anything is sent.
pub talk_long :
    (fuel fd : ℕ) (word : Bytes) (os : Os) (h : List Call)
    → NoNul word
    → 1022 ≤ length word
    → os h reads_word ≡ gives word
    → (x : Fault) × (talk (suc fuel) fd os h ≡ (faults x, reads_word ∷ h))
talk_long fuel fd word os h n l e = elim (sizes (length word) l) [
  | inl a ↦ (no_terminator, talk_1022 fuel fd word os h n e a)
  | inr (inl b) ↦ (out_of_bounds, talk_1023 fuel fd word os h n e b)
  | inr (inr c) ↦ (out_of_bounds, talk_1024 fuel fd word os h n e c)
]
  where
    sizes : (k : ℕ) → 1022 ≤ k → (k ≡ 1022) ⊎ ((k ≡ 1023) ⊎ (1024 ≤ k))
    sizes k l = elim (Bool-cases (k == 1022)) [
      | inl a ↦ inl (ground arith)
      | inr a ↦ elim (Bool-cases (k == 1023)) [
        | inl b ↦ inr (inl (ground arith))
        | inr b ↦ inr (inr (ground arith))
      ]
    ]
