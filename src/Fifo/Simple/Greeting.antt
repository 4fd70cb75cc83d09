-- ===== src/Fifo/Simple/Greeting.antt =====
-- Which names the client can hand to the server, and what the two runs do.
use unix_ipc.Prelude.{
  ℕ, zero, suc, ◌≤◌, ◌<◌, ◌≡◌, refl, ap, ◌∙◌, some, Bytes, pos, List, [], ◌∷◌, ◌++◌, length, drop,
  replicate, NoNul, arith, c_string, c_string-append, c_string-NoNul, store_at-append, append-nil,
  length-append, length-drop,
}
use unix_ipc.Sys.{
  Call, Reply, Os, ok, faults, no_terminator, opens, makes_fifo, unlinks, reads, writes, closes,
  prints, read_only, write_only, non_block, returns, gives, Answers, after,
}
use unix_ipc.Fifo.Package.{empty_buffer}
use unix_ipc.Fifo.Transfer.{length-empty_buffer}
use unix_ipc.Fifo.Files.{open_file, create_fifo, close_fifo, close_file, copy_to_buffer}
use unix_ipc.Fifo.Session.Script.{written, read_whole, write_whole}
use unix_ipc.Fifo.Simple.{padded, hello}
use unix_ipc.Fifo.Simple.Server
use unix_ipc.Fifo.Simple.Client

abbrev pub in_buffer : Bytes → Bytes
in_buffer text = text ++ drop (length text) empty_buffer

padded_lem :
    (text : Bytes) (os : Os) (h : List Call)
    → length text ≤ 1024
    → padded text os h ≡ (ok (in_buffer text), h)
unfolding padded copy_to_buffer
padded_lem text os h l =
    rw (store_at-append 0 [] empty_buffer text refl (omega (arith, length-empty_buffer)))

length-in_buffer : (text : Bytes) → length text ≤ 1024 → length (in_buffer text) ≡ 1024
length-in_buffer text l = omega (
  arith,
  length-append text (drop (length text) empty_buffer),
  length-drop (length text) empty_buffer,
  length-empty_buffer,
)

drop-zeros : (k n : ℕ) → k < n → c_string (drop k (replicate n 0)) ≡ some []
drop-zeros k zero l = absurd (omega arith)
drop-zeros zero (suc n) l = refl
drop-zeros (suc k) (suc n) l = drop-zeros k n (omega arith)

c_string-in_buffer :
    (text : Bytes) → NoNul text → length text < 1024 → c_string (in_buffer text) ≡ some text
unfolding empty_buffer
c_string-in_buffer text n l =
    c_string-append text (drop (length text) (replicate 1024 0)) [] n
      (drop-zeros (length text) 1024 l)
    ∙ ap some (append-nil text)

module _ (server client : Bytes) (r w : ℕ) where
  pub server_script : List (Call × Reply)
  server_script =
      (makes_fifo server, returns (pos 0))
      ∷ (opens server (non_block ∷ read_only ∷ []), returns (pos r))
      ∷ (reads (pos r) 1024, gives (in_buffer client))
      ∷ (opens client (non_block ∷ write_only ∷ []), returns (pos w))
      ∷ (writes (pos w) (in_buffer hello), written)
      ∷ (unlinks server, returns (pos 0))
      ∷ (closes (pos r), returns (pos 0))
      ∷ (closes (pos w), returns (pos 0))
      ∷ []

  pub client_script : List (Call × Reply)
  client_script =
      (opens server (non_block ∷ write_only ∷ []), returns (pos w))
      ∷ (makes_fifo client, returns (pos 0))
      ∷ (writes (pos w) (in_buffer client), written)
      ∷ (opens client (non_block ∷ read_only ∷ []), returns (pos r))
      ∷ (reads (pos r) 1024, gives (in_buffer hello))
      ∷ (prints hello, returns (pos 0))
      ∷ (unlinks client, returns (pos 0))
      ∷ (closes (pos r), returns (pos 0))
      ∷ (closes (pos w), returns (pos 0))
      ∷ []

  module _ (tries : ℕ) (os : Os) (h : List Call) (n : NoNul client) (l : length client < 1024) where
    -- When its calls are answered as in a run with a name of fewer than 1024 bytes without a NUL,
    -- the simple client sends the name, shows the greeting, removes its pipe, closes both
    -- descriptors and ends with 0.
    pub client_run :
        Answers os h client_script
        → Client.main (suc tries) 3 server client os h ≡ (ok (pos 0), after client_script h)
    unfolding client_script Client.main open_file create_fifo close_fifo close_file
    client_run (a1, (a2, (a3, (a4, (a5, (a6, (a7, (a8, (a9, _))))))))) = rw (
      a1,
      a2,
      padded_lem client os _ (omega arith),
      write_whole (pos w) _ os _ (length-in_buffer client (omega arith)) a3,
      a4,
      read_whole tries (pos r) _ os _ (length-in_buffer hello (omega arith)) a5,
      c_string-in_buffer hello (omega arith) (omega arith),
      a7,
      a8,
      a9,
    )

  -- A name of 1024 bytes without a NUL is read past the end of its buffer by the simple server.
  pub server_long_name :
      (tries : ℕ) (os : Os) (h : List Call)
      → NoNul client
      → length client ≡ 1024
      → os h (makes_fifo server) ≡ returns (pos 0)
      → os (makes_fifo server ∷ h) (opens server (non_block ∷ read_only ∷ [])) ≡ returns (pos r)
      → os (opens server (non_block ∷ read_only ∷ []) ∷ makes_fifo server ∷ h) (reads (pos r) 1024)
        ≡ gives client
      → Server.main (suc tries) 2 server os h ≡ (
        faults no_terminator,
        reads (pos r) 1024 ∷ opens server (non_block ∷ read_only ∷ []) ∷ makes_fifo server ∷ h,
      )
  unfolding Server.main open_file create_fifo
  server_long_name tries os h n l a b c =
      rw (a, b, read_whole tries (pos r) client os _ l c, c_string-NoNul client n)
