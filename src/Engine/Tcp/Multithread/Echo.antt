-- ===== src/Engine/Tcp/Multithread/Echo.antt =====
-- The handler of socket/examples/multithread_server/main.cpp, as a program and as the machine
-- that a session's thread runs. The memory that the threads share is that of the two static
-- variables of `getAddressStr`.
use unix_ipc.Prelude.{
  ℕ, zero, suc, Bool, true, Option, none, some, Bytes, take, fill, load_at, c_string, bytes_eq,
  if◌then◌else◌, [],
}
use unix_ipc.Sys.{
  Call, Reply, Outcome, ok, faults, throws, exits, out_of_fuel, reads, writes, prints,
  formats_address, no_terminator, null_pointer, Prog, pure, or_fault, spent, call_, ◌>>=◌, ◌>>◌,
}
use unix_ipc.Engine.Address.{SocketAddress, Statics}
use unix_ipc.Engine.Buffer.{Buffer, static_buffer}
use unix_ipc.Engine.Socket
use unix_ipc.Engine.Socket.{Socket, Held, absent, null, holds}
use unix_ipc.Engine.Tcp.Multithread.{Handler}
use unix_ipc.Servers.Request.{stop}

-- A round up to the output: the buffer and its text.
unfoldable pub receive : Socket → Prog (Buffer × Bytes)
receive socket = do
  (_, buffer) ← Socket.read socket (static_buffer 1024) 1024
  text ← or_fault (c_string buffer.array) no_terminator
  pure (buffer, text)

-- The output, with the text of the client's address.
unfoldable pub show : Socket → Bytes → Statics → Prog Statics
show socket text statics = do
  call_ (prints text)
  (name, statics') ← Socket.address_str socket statics
  call_ (prints name)
  pure statics'

-- The handler, for at most `fuel` rounds.
unfoldable pub handle : ℕ → Socket → Statics → Prog (Bool × Statics)
unfolding receive show
handle zero socket statics = spent
handle (suc fuel) socket statics = do
  (buffer, text) ← receive socket
  statics' ← show socket text statics
  _ ← Socket.write socket buffer 1024
  if bytes_eq text stop then pure (true, statics') else handle fuel socket statics'

-- Where a thread is: before its `read`, before it shows the text, before it asks for the text of
-- the address, before it shows that, before its `write`, or at its end.
pub data Phase : Type 0 where
  receiving : Socket → Phase
  showing : Socket → Buffer → Bytes → Phase
  asking : Socket → SocketAddress → Buffer → Bytes → Phase
  naming : Socket → Buffer → Bytes → Phase
  answering : Socket → Buffer → Bytes → Phase
  finished : Outcome Bool → Phase

-- What follows a call, by its outcome.
abbrev pub after_receive : Socket → Outcome (Buffer × Bytes) → Phase
after_receive s (ok (buffer, text)) = showing s buffer text
after_receive s (throws e) = finished (throws e)
after_receive s (exits n) = finished (exits n)
after_receive s (faults f) = finished (faults f)
after_receive s out_of_fuel = finished out_of_fuel

-- `addressStr` up to the call of `inet_ntop`.
abbrev pub after_showing : Held → Socket → Buffer → Bytes → Statics → Phase
after_showing absent s buffer text g = naming s buffer text
after_showing null s buffer text g = finished (faults null_pointer)
after_showing (holds a) s buffer text g =
    if g.is_eval then naming s buffer text else asking s a buffer text

-- The text that the view which `addressStr` returned shows.
abbrev pub named : Held → Statics → Option Bytes
named absent g = some []
named null g = none
named (holds a) g = c_string g.address_buff

abbrev pub next : Phase → Statics → Option Call
next (receiving s) g = some (reads s.socket_ 1024)
next (showing s buffer text) g = some (prints text)
next (asking s a buffer text) g = some (formats_address (take 4 a.socket_address))
next (naming s buffer text) g = elim (named s.address_ g) [
  | none ↦ none
  | some name ↦ some (prints name)
]
next (answering s buffer text) g = elim (load_at buffer.array 0 1024) [
  | none ↦ none
  | some bytes ↦ some (writes s.socket_ bytes)
]
next (finished o) g = none

unfoldable pub answer : Phase → Statics → Reply → Phase × Statics
unfolding receive
answer (receiving s) g r = (after_receive s (receive s (λ _ _. r) []).0, g)
answer (showing s buffer text) g r = (after_showing s.address_ s buffer text g, g)
answer (asking s a buffer text) g r =
    (naming s buffer text, record { address_buff = fill g.address_buff r.bytes; is_eval = true })
answer (naming s buffer text) g r = (answering s buffer text, g)
answer (answering s buffer text) g r =
    (if bytes_eq text stop then finished (ok true) else receiving s, g)
answer (finished o) g r = (finished o, g)

abbrev pub echo : Handler Phase Statics
echo = record { start = receiving; next = next; answer = answer }
