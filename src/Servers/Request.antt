-- ===== src/Servers/Request.antt =====
-- What the servers under socket/servers share: the check of a result, the buffer of a request,
-- and the text that stops a server.
use unix_ipc.Prelude.{
  fill, take_all, some, refl, ◌<◌, drop, NoNul, c_string, c_string-append, append-nil, ℕ, zero, suc,
  ◌≡◌, Bool, false, ℤ, pos, negsuc, Bytes, List, [], ◌∷◌, ◌++◌, le_bytes, ◌==◌, ◌||◌, replicate,
  length, length-replicate, arith,
}
use unix_ipc.Sys.{Call, Os, Prog, pure, exit, makes_socket, binds, listens, result_of, ◌>>=◌}
use unix_ipc.Sys.Ensures.{Limits, Ensures}
use unix_ipc.Engine.Address.{af_inet, sock_stream, htons_bytes}

-- `errorHandler(res, msg)`: a result that is checked is a number from then on.
unfoldable pub error_handler : ℤ → Prog ℕ
error_handler (pos n) = pure n
error_handler (negsuc n) = exit (negsuc 0)

-- `char buff[1024] = {0}`
unfoldable pub request_buffer : Bytes
request_buffer = replicate 1024 0

pub length-request_buffer : length request_buffer ≡ 1024
unfolding request_buffer
length-request_buffer = length-replicate {A = ℕ} 1024 0

-- "stop\r\n"
abbrev pub stop : Bytes
stop = 115 ∷ 116 ∷ 111 ∷ 112 ∷ 13 ∷ 10 ∷ []

-- A `sockaddr_in` for any address of the machine.
abbrev pub any_address : ℕ → Bytes
any_address port = le_bytes 2 af_inet ++ htons_bytes port ++ replicate 12 0

-- The socket that `main` listens on.
unfoldable pub open_server : ℕ → Prog ℕ
unfolding error_handler
open_server port = do
  made ← result_of (makes_socket af_inet sock_stream)
  listenfd ← error_handler made
  bound ← result_of (binds (pos listenfd) (any_address port))
  _ ← error_handler bound
  listening ← result_of (listens (pos listenfd) 10)
  _ ← error_handler listening
  pure listenfd

abbrev pub has : ℕ → List ℕ → Bool
has x [] = false
has x (y ∷ ys) = (y == x) || has x ys

c_string-zeros : (k n : ℕ) → k < n → c_string (drop k (replicate n 0)) ≡ some []
c_string-zeros zero zero l = absurd (omega (arith, l))
c_string-zeros zero (suc n) l = refl
c_string-zeros (suc k) zero l = absurd (omega (arith, l))
c_string-zeros (suc k) (suc n) l = c_string-zeros k n (omega (arith, l))

-- A text at the start of a cleared buffer.
abbrev pub padded : Bytes → Bytes
padded text = text ++ drop (length text) request_buffer

pub c_string-padded :
    (text : Bytes) → NoNul text → length text < 1024 → c_string (padded text) ≡ some text
unfolding request_buffer
c_string-padded text n l =
    rw
      (
        c_string-append text (drop (length text) (replicate 1024 0)) [] n
            (c_string-zeros (length text) 1024 l),
        append-nil text,
      )
      refl

-- A text of fewer bytes than the buffer has is found in it.
pub c_string-fill :
    (text : Bytes)
    → NoNul text
    → length text < 1024
    → c_string (fill request_buffer text) ≡ some text
unfolding fill
c_string-fill text n l =
    rw (length-request_buffer, take_all {A = ℕ} 1024 text (omega (arith, l)))
      (c_string-padded text n l)

-- What is checked is a number from then on.
pub error_handler-then :
    {B : Type 0} (F : Limits) (z : ℤ) (k : ℕ → Prog B) (os : Os) (h : List Call)
    (R : B → List Call → Type 0)
    → ((n : ℕ) → z ≡ pos n → Ensures F (k n) os h R)
    → Ensures F (error_handler z >>= k) os h R
unfolding error_handler
error_handler-then F (pos n) k os h R t = t n refl
error_handler-then F (negsuc n) k os h R t = tt

-- The rule for a call whose result is checked.
pub checked-Ensures :
    {B : Type 0} (F : Limits) (c : Call) (k : ℕ → Prog B) (os : Os) (h : List Call)
    (R : B → List Call → Type 0)
    → ((n : ℕ) → (os h c).result ≡ pos n → Ensures F (k n) os (c ∷ h) R)
    → Ensures F (result_of c >>= λ z. error_handler z >>= k) os h R
checked-Ensures F c k os h R = error_handler-then F (os h c).result k os (c ∷ h) R

-- The calls that `open_server` makes where it returns.
abbrev pub server_calls : ℕ → ℕ → List Call → List Call
server_calls port l h = listens (pos l) 10 ∷ binds (pos l) (any_address port) ∷ makes_socket 2 1 ∷ h

pub open_server-Ensures :
    (F : Limits) (port : ℕ) (os : Os) (h : List Call)
    → Ensures F
        (open_server port)
        os
        h
        (λ l g. ((os h (makes_socket 2 1)).result ≡ pos l) × (g ≡ server_calls port l h))
unfolding open_server
open_server-Ensures F port os h =
    let R : ℕ → List Call → Type 0 =
      λ l g. ((os h (makes_socket 2 1)).result ≡ pos l) × (g ≡ server_calls port l h) in
    let listening : ℕ → Prog ℕ =
      λ l. result_of (listens (pos l) 10) >>= λ r. error_handler r >>= λ _. pure l in
    let h1 = makes_socket 2 1 ∷ h in
    checked-Ensures F (makes_socket 2 1)
      (λ l.
        result_of (binds (pos l) (any_address port)) >>= λ b. error_handler b >>= λ _. listening l)
      os h R
      (λ l e.
        checked-Ensures F (binds (pos l) (any_address port)) (λ _. listening l) os h1 R
          (λ _ _.
            checked-Ensures F (listens (pos l) 10) (λ _. pure l) os
              (binds (pos l) (any_address port) ∷ h1) R (λ _ _. (e, refl))))
