-- ===== src/Engine/Tcp/Multithread/Returned.antt =====
-- What a session of the multithread server sends back, against what its own reads brought.
use unix_ipc.Prelude.{
  ℕ, ◌≡◌, ◌⊎◌, refl, sym, ap, subst, ◌∙◌, inl, inr, Bool-cases, Option-cases, some, Bytes, List, [],
  ◌∷◌, get_elem?, load_at, c_string, take, take_all, le→leb, length, length-take, length-append,
  length-replicate, replicate, bytes_eq, if◌then◌else◌, true, not-ltb-zero, to_size, ◌-◌, ◌+◌,
  arith,
}
use unix_ipc.Sys.{Call, Reply, ok, reads, writes, prints, formats_address}
use unix_ipc.Engine.Address.{Statics}
use unix_ipc.Engine.Buffer.{Buffer, static_buffer}
use unix_ipc.Engine.IoOperations.{read_from}
use unix_ipc.Engine.Socket
use unix_ipc.Engine.Socket.{Socket, Held, absent, null, holds}
use unix_ipc.Engine.Tcp.Listener.{TcpListener}
use unix_ipc.Engine.Tcp.Multithread.{Session, Acceptor, make, Reach, own, Ran}
use unix_ipc.Engine.Tcp.Multithread.Isolation.{Reach-Isolated}
use unix_ipc.Engine.Tcp.Multithread.Echo.{
  Phase, receiving, showing, asking, naming, answering, finished, after_receive, after_showing,
  named, next, answer, echo, receive,
}
use unix_ipc.Engine.Tcp.Receiver.{received, stored}
use unix_ipc.Servers.Request.{stop}

-- A buffer of 1024 bytes for each read, with the bytes that came and zeros after them; and what was
-- written. Both newest first, as the calls are.
abbrev pub got : List (Call × Reply) → List Bytes
got [] = []
got ((reads f n, r) ∷ calls) = received 1024 r.bytes ∷ got calls
got ((_, r) ∷ calls) = got calls

abbrev pub sent : List (Call × Reply) → List Bytes
sent [] = []
sent ((writes f bytes, r) ∷ calls) = bytes ∷ sent calls
sent ((_, r) ∷ calls) = sent calls

-- What was written is what the reads brought, possibly but for the last of them.
abbrev pub Returns : List (Call × Reply) → Type 0
Returns calls = (got calls ≡ sent calls) ⊎ ((bs : Bytes) × (got calls ≡ bs ∷ sent calls))

-- The buffer holds what the last read brought, and is not sent back yet.
abbrev Holding : Buffer → List (Call × Reply) → Type 0
Holding buffer calls = (got calls ≡ buffer.array ∷ sent calls) × (length buffer.array ≡ 1024)

abbrev At : Phase → List (Call × Reply) → Type 0
At (receiving s) calls = got calls ≡ sent calls
At (showing s buffer text) calls = Holding buffer calls
At (asking s a buffer text) calls = Holding buffer calls
At (naming s buffer text) calls = Holding buffer calls
At (answering s buffer text) calls = Holding buffer calls
At (finished o) calls = Returns calls

At-Returns : (p : Phase) (calls : List (Call × Reply)) → At p calls → Returns calls
At-Returns (receiving s) calls e = inl e
At-Returns (showing s buffer text) calls e = inr (buffer.array, e.0)
At-Returns (asking s a buffer text) calls e = inr (buffer.array, e.0)
At-Returns (naming s buffer text) calls e = inr (buffer.array, e.0)
At-Returns (answering s buffer text) calls e = inr (buffer.array, e.0)
At-Returns (finished o) calls e = e

length-received : (bytes : Bytes) → length (received 1024 bytes) ≡ 1024
length-received bytes = omega (
  arith,
  length-append (take 1024 bytes) (replicate (1024 - length (take 1024 bytes)) 0),
  length-replicate {A = ℕ} (1024 - length (take 1024 bytes)) 0,
  length-take 1024 bytes,
)

loaded_all :
    (array bytes : Bytes) → length array ≡ 1024 → load_at array 0 1024 ≡ some bytes → bytes ≡ array
unfolding load_at
loaded_all array bytes l e =
    let e' =
      rw
        (
          le→leb (0 + 1024) (length array) (omega (arith, l)),
          take_all 1024 array (omega (arith, l)),
        )
        at e in
    cc

receive-At :
    (s : Socket) (r : Reply) (calls : List (Call × Reply))
    → got calls ≡ sent calls
    → At (after_receive s (receive s (λ _ _. r) []).0) ((reads s.socket_ 1024, r) ∷ calls)
unfolding receive Socket.read read_from static_buffer
receive-At s r calls e = elim (Option-cases (c_string (received 1024 r.bytes))) [
  | inl f ↦
      rw (stored 1024 r.bytes, not-ltb-zero (to_size r.result), f)
        (inr (received 1024 r.bytes, ap (◌∷◌ (received 1024 r.bytes)) e))
  | inr (text, f) ↦
      rw (stored 1024 r.bytes, not-ltb-zero (to_size r.result), f)
        (ap (◌∷◌ (received 1024 r.bytes)) e, length-received r.bytes)
]

showing-At :
    (a : Held) (s : Socket) (buffer : Buffer) (text : Bytes) (g : Statics)
    (calls : List (Call × Reply))
    → Holding buffer calls
    → At (after_showing a s buffer text g) calls
showing-At absent s buffer text g calls e = e
showing-At null s buffer text g calls e = inr (buffer.array, e.0)
showing-At (holds a) s buffer text g calls e = elim (Bool-cases g.is_eval) [
  | inl y ↦ rw y e
  | inr y ↦ rw y e
]

answer-At :
    (p : Phase) (g : Statics) (c : Call) (r : Reply) (calls : List (Call × Reply))
    → next p g ≡ some c
    → At p calls
    → At (answer p g r).0 ((c, r) ∷ calls)
unfolding answer
answer-At (receiving s) g c r calls n e =
    let q : reads s.socket_ 1024 ≡ c = cc in
    subst (λ c. At (after_receive s (receive s (λ _ _. r) []).0) ((c, r) ∷ calls)) q
      (receive-At s r calls e)
answer-At (showing s buffer text) g c r calls n e =
    let q : prints text ≡ c = cc in
    subst (λ c. At (after_showing s.address_ s buffer text g) ((c, r) ∷ calls)) q
      (showing-At s.address_ s buffer text g ((prints text, r) ∷ calls) e)
answer-At (asking s a buffer text) g c r calls n e =
    let q : formats_address (take 4 a.socket_address) ≡ c = cc in
    subst (λ c. Holding buffer ((c, r) ∷ calls)) q e
answer-At (naming s buffer text) g c r calls n e = elim (Option-cases (named s.address_ g)) [
  | inl m ↦ let n' = rw (m, next) at n in cc
  | inr (name, l) ↦
      let n' = rw (l, next) at n in
      let q : prints name ≡ c = cc in subst (λ c. Holding buffer ((c, r) ∷ calls)) q e
]
answer-At (answering s buffer text) g c r calls n (e, k) =
    elim (Option-cases (load_at buffer.array 0 1024)) [
      | inl m ↦ let n' = rw (m, next) at n in cc
      | inr (bytes, l) ↦
          let n' = rw (l, next) at n in
          let q : writes s.socket_ bytes ≡ c = cc in
          let same : got calls ≡ bytes ∷ sent calls =
            e ∙ ap (λ bs. bs ∷ sent calls) (sym (loaded_all buffer.array bytes k l)) in
          subst
            (λ c.
              At (if bytes_eq text stop then finished (ok true) else receiving s) ((c, r) ∷ calls))
            q
            (elim (Bool-cases (bytes_eq text stop)) [ inl y ↦ rw y (inl same) | inr y ↦ rw y same ])
    ]
answer-At (finished o) g c r calls n e = cc

Ran-At :
    (s : Socket) (q : Phase) (calls : List (Call × Reply))
    → Ran echo (receiving s) calls q
    → At q calls
Ran-At s q [] e = subst (λ p. At p []) (sym e) refl
Ran-At s q ((c, r) ∷ calls) (u, g, ran, n, e) =
    subst (λ p. At p ((c, r) ∷ calls)) (sym e) (answer-At u g c r calls n (Ran-At s u calls ran))

-- However the threads of the multithread example are interleaved, with the static variables of
-- `getAddressStr` shared by all, and whatever they are answered, what a session has written is, in
-- order, what its own reads brought, each in a whole buffer of 1024 bytes with zeros after the
-- bytes that came, possibly but for its last read.
pub session-Returns :
    (g : Statics) (l : TcpListener) (a : Acceptor echo) (i : ℕ) (t : Session echo)
    → Reach echo (make echo g l) a
    → get_elem? a.tcp_sessions_ i ≡ some t
    → Returns (own echo i a.trace)
session-Returns g l a i t r e = At-Returns t.state (own echo i a.trace) (
    Ran-At (Socket.copy t.client_socket_) t.state (own echo i a.trace)
      (Reach-Isolated echo g l a r i t e))
