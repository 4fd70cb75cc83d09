-- ===== src/Examples/TcpSender.antt =====
-- socket/examples/tcp_sender/main.cpp: two words of the input are sent.
use unix_ipc.Prelude.{
  ℕ, zero, suc, ◌≡◌, refl, sym, subst, Bytes, ℤ, pos, some, List, [], ◌∷◌, length, leb, ◌==◌,
  if◌then◌else◌, load_at, ltb, to_size, false, arith,
}
use unix_ipc.Sys.{
  Call, Os, ok, reads_word, writes, no_arguments, failed_assert, out_of_bounds, Prog, pure, throw,
  fault, or_fault, skip, call, ◌>>=◌, ◌>>◌,
}
use unix_ipc.Sys.Ensures.{partial, Ensures, >>=-Ensures, if-Ensures, or_fault-Ensures, Ensures-ok}
use unix_ipc.Engine.Address.{of_ip}
use unix_ipc.Engine.Buffer
use unix_ipc.Engine.Buffer.{Buffer, static_buffer}
use unix_ipc.Engine.IoOperations.{write_to}
use unix_ipc.Engine.Socket
use unix_ipc.Engine.Socket.{usual}
use unix_ipc.Engine.Tcp.Sender.{TcpSender, of_socket, send}

-- One round of the loop of `main`.
unfoldable pub send_word : TcpSender → Prog (Unit {0})
send_word sender = do
  r ← call reads_word
  buffer ← Buffer.write (static_buffer 1024) r.bytes (length r.bytes)
  _ ← send sender buffer
  skip

-- The rounds that are left.
unfoldable pub send_words : ℕ → TcpSender → Prog (Unit {0})
unfolding send_word
send_words zero sender = skip
send_words (suc n) sender = send_word sender >> send_words n sender

-- `main`, with `port` the value of `std::stoi(argv[2])` in a `short`.
unfoldable pub main : ℕ → Bytes → ℕ → Prog ℤ
unfolding send_words
main argc ip port =
    if argc == 3
    then (do
      address ← of_ip (some ip) port
      socket ← Socket.make address usual
      sender ← of_socket socket
      send_words 2 sender
      pure (pos 0))
    else throw no_arguments

-- Every write of the history is empty.
abbrev pub Silent : List Call → Type 0
Silent [] = Unit {0}
Silent (writes fd bytes ∷ h) = (bytes ≡ []) × Silent h
Silent (_ ∷ h) = Silent h

write-Ensures :
    (b : Buffer) (source : Bytes) (n : ℕ) (os : Os) (h : List Call)
    → Ensures partial (Buffer.write b source n) os h (λ c g. (c.size_ ≡ b.size_) × (g ≡ h))
unfolding Buffer.write
write-Ensures b source n os h =
    let Q : Buffer → List Call → Type 0 = λ c g. (c.size_ ≡ b.size_) × (g ≡ h) in
    if-Ensures partial (leb n b.capacity_)
      (or_fault (Buffer.copy source b.array n) out_of_bounds >>= λ filled.
        pure (record b { array = filled }))
      (fault failed_assert) os h Q
      (λ _.
        >>=-Ensures partial (or_fault (Buffer.copy source b.array n) out_of_bounds)
          (λ filled. pure (record b { array = filled })) os h
          (λ filled g. (Buffer.copy source b.array n ≡ some filled) × (g ≡ h)) Q
          (or_fault-Ensures partial (Buffer.copy source b.array n) out_of_bounds os h (λ _. tt))
          (λ filled g q. (refl, q.1)))
      (λ _. tt)

load_at-zero : (bytes : Bytes) (n : ℕ) → n ≡ 0 → load_at bytes 0 n ≡ some []
unfolding load_at
load_at-zero bytes n e = rw e (ground arith)

send-Silent :
    (sender : TcpSender) (b : Buffer) (os : Os) (h : List Call)
    → b.size_ ≡ 0
    → Silent h
    → Ensures partial (send sender b) os h (λ _. Silent)
unfolding send Socket.write write_to
send-Silent sender b os h e s =
    let n : ltb (to_size (os h (writes sender.socket_.socket_ [])).result) 0 ≡ false =
      ground arith in
    rw (load_at-zero b.array b.size_ e, n) (refl, s)

send_word-Silent :
    (sender : TcpSender) (os : Os) (h : List Call)
    → Silent h
    → Ensures partial (send_word sender) os h (λ _. Silent)
unfolding send_word static_buffer
send_word-Silent sender os h s =
    let r = os h reads_word in
    let k : Buffer → Prog (Unit {0}) = λ b. send sender b >>= λ _. skip in
    >>=-Ensures partial (Buffer.write (static_buffer 1024) r.bytes (length r.bytes)) k os
      (reads_word ∷ h) (λ c g. (c.size_ ≡ 0) × (g ≡ reads_word ∷ h)) (λ _. Silent)
      (write-Ensures (static_buffer 1024) r.bytes (length r.bytes) os (reads_word ∷ h))
      (λ c g q.
        >>=-Ensures partial (send sender c) (λ _. skip) os g (λ _. Silent) (λ _. Silent)
          (send-Silent sender c os g q.0 (subst Silent (sym q.1) s)) (λ _ g1 t. t))

send_words-Ensures :
    (n : ℕ) (sender : TcpSender) (os : Os) (h : List Call)
    → Silent h
    → Ensures partial (send_words n sender) os h (λ _. Silent)
unfolding send_words
send_words-Ensures zero sender os h s = s
send_words-Ensures (suc n) sender os h s =
    >>=-Ensures partial (send_word sender) (λ _. send_words n sender) os h (λ _. Silent)
      (λ _. Silent) (send_word-Silent sender os h s) (λ _ g t. send_words-Ensures n sender os g t)

-- Whatever words the user of the sender example types, and however the system answers, its rounds,
-- where they return, write only empty texts to the socket.
pub send_words-Silent :
    (n : ℕ) (sender : TcpSender) (os : Os) (h g : List Call)
    → send_words n sender os h ≡ (ok tt, g)
    → Silent h
    → Silent g
send_words-Silent n sender os h g e s =
    Ensures-ok partial (send_words n sender os h) (λ _. Silent) (send_words-Ensures n sender os h s)
      e
