-- ===== src/Engine/Tcp/Multithread/Talk.antt =====
-- What the handler of the multithread example does for a client that talks to it.
use unix_ipc.Prelude.{
  bytes_eq, not-ltb-zero, ℕ, zero, suc, ◌<◌, ◌≡◌, refl, sym, ap, ◌∙◌, true, some, Bytes, ℤ, List,
  ◌∷◌, length, fill, pos, ◌++◌, c_string, if◌then◌else◌, [], Bool-cases, inl, inr, load_at,
  load_at-append, store_at, take, append-nil, to_size, arith,
}
use unix_ipc.Sys.{
  Call, Reply, Os, ok, pure, reads, writes, prints, formats_address, gives, returns, Answers, after,
}
use unix_ipc.Sys.Replay.{after-append, Answers-append}
use unix_ipc.Engine.Address.{SocketAddress, Statics, get_address_str, evaluate, view}
use unix_ipc.Engine.Buffer.{Buffer, static_buffer}
use unix_ipc.Engine.Outcomes.{of_value}
use unix_ipc.Engine.IoOperations.{read_from, write_to}
use unix_ipc.Engine.Socket
use unix_ipc.Engine.Socket.{Socket, holds}
use unix_ipc.Engine.Tcp.Multithread.Echo.{receive, show, handle}
use unix_ipc.Servers.Request.{request_buffer, stop, padded, c_string-padded}
use unix_ipc.Servers.SimpleTcp.Connect.{IsText, IsTalk, stored, length-padded}

module _ (a : SocketAddress) (ip : Bytes) where
  -- The static variables once they hold the text that `inet_ntop` gives.
  abbrev pub known : Statics → Statics
  known g =
      if g.is_eval then g else record { address_buff = fill g.address_buff ip; is_eval = true }

  -- The output for a text: only the first text that is shown takes a call of `inet_ntop`.
  abbrev pub shown : Statics → Bytes → Bytes → List (Call × Reply)
  shown g name text =
      (prints text, returns (pos 0))
        ∷ (if g.is_eval then [] else (formats_address (take 4 a.socket_address), gives ip) ∷ [])
      ++ (prints name, returns (pos 0)) ∷ []

  -- A conversation: each text, and "stop" at the end, is shown with the address, and answered by a
  -- buffer that begins with it, whatever `write` returns.
  abbrev pub conversation : ℤ → Statics → Bytes → List (Bytes × ℤ) → ℤ → List (Call × Reply)
  conversation fd g name [] z =
      ((reads fd 1024, gives stop) ∷ shown g name stop) ++ (writes fd (padded stop), returns z) ∷ []
  conversation fd g name ((text, y) ∷ talk) z =
      ((reads fd 1024, gives text) ∷ shown g name text)
      ++ (writes fd (padded text), returns y) ∷ conversation fd (known g) name talk z

  known-known : (g : Statics) → known (known g) ≡ known g
  known-known g = elim (Bool-cases g.is_eval) [ inl y ↦ rw y refl | inr y ↦ rw y refl ]

  show_text :
      (s : Socket) (g : Statics) (name text : Bytes) (os : Os) (h : List Call)
      → s.address_ ≡ holds a
      → c_string (known g).address_buff ≡ some name
      → Answers os h (shown g name text)
      → show s text g os h ≡ (ok (known g), after (shown g name text) h)
  unfolding show Socket.address_str get_address_str evaluate view
  show_text s g name text os h e n w = elim (Bool-cases g.is_eval) [
    | inl y ↦ let n' = rw y at n in rw (e, y, n') refl
    | inr y ↦ let n' = rw y at n in let w' = rw y at w in rw (e, y, w'.1.0, n') refl
  ]

-- The buffer of the handler after a text.
abbrev holding : Bytes → Buffer
holding text = record (static_buffer 1024) { array = padded text }

array-request : (static_buffer 1024).array ≡ request_buffer
unfolding static_buffer request_buffer
array-request = refl

receive_text :
    (s : Socket) (text : Bytes) (os : Os) (h : List Call)
    → IsText text
    → os h (reads s.socket_ 1024) ≡ gives text
    → receive s os h ≡ (ok (holding text, text), reads s.socket_ 1024 ∷ h)
unfolding receive Socket.read read_from
receive_text s text os h t e =
    let kept = ap (λ bs. store_at bs 0 (take 1024 text)) array-request ∙ stored text t.2 in
    rw (e, kept, not-ltb-zero (length text), c_string-padded text t.0 t.2) refl

loaded : (text : Bytes) → length text < 1024 → load_at (padded text) 0 1024 ≡ some (padded text)
loaded text l =
    ap (λ bs. load_at bs 0 1024) (sym (append-nil (padded text)))
    ∙ load_at-append 0 1024 [] (padded text) [] refl (length-padded text l)

write_text :
    (s : Socket) (text : Bytes) (z : ℤ) (os : Os) (h : List Call)
    → length text < 1024
    → os h (writes s.socket_ (padded text)) ≡ returns z
    → Socket.write s (holding text) 1024 os h
      ≡ (ok (of_value (to_size z)), writes s.socket_ (padded text) ∷ h)
unfolding Socket.write write_to
write_text s text z os h l e = rw (loaded text l, e, not-ltb-zero (to_size z)) refl

module _ (a : SocketAddress) (ip name : Bytes) where
  -- A round of the handler whose read brings a text.
  round_text :
      (fuel : ℕ) (s : Socket) (g : Statics) (text : Bytes) (y : ℤ) (os : Os) (h : List Call)
      (rest : List (Call × Reply))
      → s.address_ ≡ holds a
      → c_string (known a ip g).address_buff ≡ some name
      → IsText text
      → let turn = (reads s.socket_ 1024, gives text) ∷ shown a ip g name text in
        let answered = (writes s.socket_ (padded text), returns y) ∷ rest in
        Answers os h (turn ++ answered)
        → handle (suc fuel) s g os h
          ≡ (if bytes_eq text stop then pure (true, known a ip g) else handle fuel s (known a ip g))
              os
              (writes s.socket_ (padded text) ∷ after turn h)
  unfolding handle
  round_text fuel s g text y os h rest q n v (r, w) =
      let (p, (b, _)) =
        Answers-append (shown a ip g name text) ((writes s.socket_ (padded text), returns y) ∷ rest)
          os (reads s.socket_ 1024 ∷ h) w in
      rw
        (
          receive_text s text os h v r,
          show_text a ip s g name text os (reads s.socket_ 1024 ∷ h) q n p,
          write_text s text y os (after (shown a ip g name text) (reads s.socket_ 1024 ∷ h)) v.2 b,
        )
        refl

  -- The rest of a conversation, after a round.
  conversation-rest :
      (s : Socket) (g : Statics) (text : Bytes) (y : ℤ) (os : Os) (h : List Call)
      (rest : List (Call × Reply))
      → let turn = (reads s.socket_ 1024, gives text) ∷ shown a ip g name text in
        Answers os h (turn ++ (writes s.socket_ (padded text), returns y) ∷ rest)
        → Answers os (writes s.socket_ (padded text) ∷ after turn h) rest
  conversation-rest s g text y os h rest (r, w) =
      (Answers-append (shown a ip g name text) ((writes s.socket_ (padded text), returns y) ∷ rest)
        os (reads s.socket_ 1024 ∷ h) w).1.1

  -- A client of the multithread example that sends texts of 1 to 1023 bytes without a NUL, and
  -- "stop" last, over a socket with an address that has a text, gets for each of them, "stop" too,
  -- the whole buffer of 1024 bytes that begins with it, whatever `write` returns, after the text
  -- and that of the address were shown, and then its session ends; the text of the address is asked
  -- for at most once, and one more round than there are texts before "stop" is enough.
  pub handle_lem :
      (fuel : ℕ) (s : Socket) (g : Statics) (talk : List (Bytes × ℤ)) (z : ℤ) (os : Os)
      (h : List Call)
      → s.address_ ≡ holds a
      → c_string (known a ip g).address_buff ≡ some name
      → IsTalk talk
      → length talk < fuel
      → Answers os h (conversation a ip s.socket_ g name talk z)
      → handle fuel s g os h
        ≡ (ok (true, known a ip g), after (conversation a ip s.socket_ g name talk z) h)
  unfolding handle
  handle_lem zero s g talk z os h q n t l w = absurd (omega (arith, l))
  handle_lem (suc fuel) s g [] z os h q n t l w =
      let v : IsText stop = ground arith in
      round_text fuel s g stop z os h [] q n v w
      ∙ ap (λ k. (ok (true, known a ip g), k))
          (sym (
            after-append (shown a ip g name stop) ((writes s.socket_ (padded stop), returns z) ∷ [])
              (reads s.socket_ 1024 ∷ h)))
  handle_lem (suc fuel) s g ((text, y) ∷ talk) z os h q n (v, x, t) l w =
      let more = conversation a ip s.socket_ (known a ip g) name talk z in
      let e = known-known a ip g in
      let k = conversation-rest s g text y os h more w in
      round_text fuel s g text y os h more q n v w
      ∙ ap
          (λ b. (if b then pure (true, known a ip g) else handle fuel s (known a ip g)) os (
            writes s.socket_ (padded text)
            ∷ after (shown a ip g name text) (reads s.socket_ 1024 ∷ h)))
          x
      ∙ handle_lem fuel s (known a ip g) talk z os _ q (ap (λ g. c_string g.address_buff) e ∙ n) t
          (omega (arith, l)) k
      ∙ ap
          (λ k. (
            ok (true, k),
            after more (
                writes s.socket_ (padded text)
                ∷ after (shown a ip g name text) (reads s.socket_ 1024 ∷ h)),
          ))
          e
      ∙ ap (λ k. (ok (true, known a ip g), k))
          (sym (
            after-append (shown a ip g name text)
              ((writes s.socket_ (padded text), returns y) ∷ more) (reads s.socket_ 1024 ∷ h)))
