-- ===== src/Servers/Poll/Answering/Tests.antt =====
-- A round of the server over `poll` with two clients.
use unix_ipc.Prelude.{ℕ, ◌≡◌, refl, true, pos, some, Bytes, [], ◌∷◌, ◌==◌, if◌then◌else◌, arith}
use unix_ipc.Sys.{ok, writes, Os, reads, polls, returns, gives}
use unix_ipc.Servers.Poll.{new_entry, polled, round}
use unix_ipc.Servers.Poll.Answering.{IsText, round-answers}

-- "hi" of the client 4 and "yo" of the client 5.
abbrev word : ℕ → Bytes
word fd = if fd == 4 then 104 ∷ 105 ∷ [] else 121 ∷ 111 ∷ []

hi-IsText : IsText (word 4)
hi-IsText = record {
  no_nul = ((λ e. cc), ((λ e. cc), tt));
  some_byte = omega arith;
  short = omega arith;
  not_stop = refl;
}

yo-IsText : IsText (word 5)
yo-IsText = record {
  no_nul = ((λ e. cc), ((λ e. cc), tt));
  some_byte = omega arith;
  short = omega arith;
  not_stop = refl;
}

-- Both are ready, and the listening descriptor is not.
abbrev both_ready : Os
both_ready h (polls fds) = record {
  result = pos 2;
  bytes = [];
  revents = 0 ∷ 64 ∷ 64 ∷ [];
  ready = [];
}
both_ready h (reads (pos fd) size) = gives (word fd)
both_ready h c = returns (pos 2)

round-answers_example :
    round 3
      (record { clients = new_entry 3 ∷ new_entry 4 ∷ new_entry 5 ∷ []; is_running = true })
      both_ready
      []
    ≡ (
      ok (record {
        clients =
            record (new_entry 3) { revents = some 0 }
            ∷ record (new_entry 4) { revents = some 64 }
            ∷ record (new_entry 5) { revents = some 64 }
            ∷ [];
        is_running = true;
      }),
      writes (pos 5) (word 5)
          ∷ reads (pos 5) 1024
          ∷ writes (pos 4) (word 4)
          ∷ reads (pos 4) 1024
          ∷ polls (pos 3 ∷ pos 4 ∷ pos 5 ∷ [])
          ∷ [],
    )
unfolding polled
round-answers_example =
    round-answers 3 2 0 (64 ∷ 64 ∷ []) (new_entry 3) (new_entry 4 ∷ new_entry 5 ∷ []) true word
      both_ready [] refl refl (omega arith) ((λ _. hi-IsText), ((λ _. yo-IsText), tt))
      (refl, (refl, (refl, (refl, tt))))
