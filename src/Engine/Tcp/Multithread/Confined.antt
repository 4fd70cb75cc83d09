-- ===== src/Engine/Tcp/Multithread/Confined.antt =====
-- What the sessions of the multithread server do with their descriptors.
use unix_ipc.Prelude.{
  ℕ, ◌≡◌, refl, sym, subst, inl, inr, Bool-cases, Option-cases, some, Bytes, ℤ, List, [], ◌∷◌,
  get_elem?, load_at, take, bytes_eq,
}
use unix_ipc.Sys.{
  Call, Reply, Outcome, ok, faults, throws, exits, out_of_fuel, reads, writes, prints,
  formats_address,
}
use unix_ipc.Engine.Address.{Statics}
use unix_ipc.Engine.Buffer.{Buffer}
use unix_ipc.Engine.Socket
use unix_ipc.Engine.Socket.{Socket, Held, absent, null, holds}
use unix_ipc.Engine.Tcp.Listener.{TcpListener}
use unix_ipc.Engine.Tcp.Multithread.{Session, Acceptor, make, Reach, own, Ran}
use unix_ipc.Engine.Tcp.Multithread.Isolation.{Reach-Isolated}
use unix_ipc.Engine.Tcp.Multithread.Echo.{
  Phase, receiving, showing, asking, naming, answering, finished, after_receive, after_showing,
  named, next, answer, echo, receive,
}
use unix_ipc.Servers.Request.{stop}

-- A read or a write of `fd`, output, or the conversion of an address, and nothing else: no `close`.
abbrev pub Uses : ℤ → Call → Type 0
Uses fd (reads f n) = f ≡ fd
Uses fd (writes f bytes) = f ≡ fd
Uses fd (prints text) = Unit {0}
Uses fd (formats_address bytes) = Unit {0}
Uses fd _ = ⊥

abbrev pub AllUse : ℤ → List (Call × Reply) → Type 0
AllUse fd [] = Unit {0}
AllUse fd ((c, r) ∷ calls) = Uses fd c × AllUse fd calls

abbrev Of : ℤ → Phase → Type 0
Of fd (receiving s) = s.socket_ ≡ fd
Of fd (showing s buffer text) = s.socket_ ≡ fd
Of fd (asking s a buffer text) = s.socket_ ≡ fd
Of fd (naming s buffer text) = s.socket_ ≡ fd
Of fd (answering s buffer text) = s.socket_ ≡ fd
Of fd (finished o) = Unit {0}

after_receive-Of :
    (s : Socket) (fd : ℤ) (o : Outcome (Buffer × Bytes))
    → s.socket_ ≡ fd
    → Of fd (after_receive s o)
after_receive-Of s fd (ok (buffer, text)) e = e
after_receive-Of s fd (throws x) e = tt
after_receive-Of s fd (exits n) e = tt
after_receive-Of s fd (faults f) e = tt
after_receive-Of s fd out_of_fuel e = tt

after_showing-Of :
    (a : Held) (s : Socket) (buffer : Buffer) (text : Bytes) (g : Statics) (fd : ℤ)
    → s.socket_ ≡ fd
    → Of fd (after_showing a s buffer text g)
after_showing-Of absent s buffer text g fd e = e
after_showing-Of null s buffer text g fd e = tt
after_showing-Of (holds a) s buffer text g fd e = elim (Bool-cases g.is_eval) [
  | inl y ↦ rw y e
  | inr y ↦ rw y e
]

answer-Of : (fd : ℤ) (p : Phase) (g : Statics) (r : Reply) → Of fd p → Of fd (answer p g r).0
unfolding answer
answer-Of fd (receiving s) g r e = after_receive-Of s fd (receive s (λ _ _. r) []).0 e
answer-Of fd (showing s buffer text) g r e = after_showing-Of s.address_ s buffer text g fd e
answer-Of fd (asking s a buffer text) g r e = e
answer-Of fd (naming s buffer text) g r e = e
answer-Of fd (answering s buffer text) g r e = elim (Bool-cases (bytes_eq text stop)) [
  | inl y ↦ rw y tt
  | inr y ↦ rw y e
]
answer-Of fd (finished o) g r e = tt

next-Uses : (fd : ℤ) (p : Phase) (g : Statics) (c : Call) → Of fd p → next p g ≡ some c → Uses fd c
next-Uses fd (receiving s) g c o e = let q : reads s.socket_ 1024 ≡ c = cc in subst (Uses fd) q o
next-Uses fd (showing s buffer text) g c o e = let q : prints text ≡ c = cc in subst (Uses fd) q tt
next-Uses fd (asking s a buffer text) g c o e =
    let q : formats_address (take 4 a.socket_address) ≡ c = cc in subst (Uses fd) q tt
next-Uses fd (naming s buffer text) g c o e = elim (Option-cases (named s.address_ g)) [
  | inl n ↦ let e' = rw (n, next) at e in cc
  | inr (name, l) ↦
      let e' = rw (l, next) at e in let q : prints name ≡ c = cc in subst (Uses fd) q tt
]
next-Uses fd (answering s buffer text) g c o e = elim (Option-cases (load_at buffer.array 0 1024)) [
  | inl n ↦ let e' = rw (n, next) at e in cc
  | inr (bytes, l) ↦
      let e' = rw (l, next) at e in let q : writes s.socket_ bytes ≡ c = cc in subst (Uses fd) q o
]
next-Uses fd (finished x) g c o e = cc

Ran-AllUse :
    (fd : ℤ) (p q : Phase) (calls : List (Call × Reply))
    → Of fd p
    → Ran echo p calls q
    → Of fd q × AllUse fd calls
Ran-AllUse fd p q [] o e = (subst (Of fd) (sym e) o, tt)
Ran-AllUse fd p q ((c, r) ∷ calls) o (u, g, ran, n, e) =
    let (k, all) = Ran-AllUse fd p u calls o ran in
    (subst (Of fd) (sym e) (answer-Of fd u g r k), (next-Uses fd u g c k n, all))

-- However the threads are interleaved, the thread of a session of the example server makes no calls
-- but reads and writes of the descriptor of its own client, output to the console, and the
-- conversion of an address into text; so it closes no descriptor.
pub session-AllUse :
    (g : Statics) (l : TcpListener) (a : Acceptor echo) (i : ℕ) (t : Session echo)
    → Reach echo (make echo g l) a
    → get_elem? a.tcp_sessions_ i ≡ some t
    → AllUse t.client_socket_.socket_ (own echo i a.trace)
unfolding Socket.copy
session-AllUse g l a i t r e =
    (Ran-AllUse t.client_socket_.socket_ (receiving (Socket.copy t.client_socket_)) t.state
      (own echo i a.trace) refl (Reach-Isolated echo g l a r i t e)).1
