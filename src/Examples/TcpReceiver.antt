-- ===== src/Examples/TcpReceiver.antt =====
-- socket/examples/tcp_receiver/main.cpp: five messages are awaited and shown.
use unix_ipc.Prelude.{
  ℕ, ◌≡◌, ◌≤◌, length, ℤ, pos, none, List, [], ◌∷◌, c_string, ◌==◌, if◌then◌else◌,
}
use unix_ipc.Sys.{
  Call, Os, ok, >>=-eq-ok, prints, no_arguments, no_terminator, Prog, pure, throw, or_fault, skip,
  call_, ◌>>=◌, ◌>>◌,
}
use unix_ipc.Engine.Address.{Statics, of_ip, initial_statics}
use unix_ipc.Engine.Tcp.Listener.{TcpListener, of_address}
use unix_ipc.Engine.Tcp.Multiplex.{World}
use unix_ipc.Engine.Tcp.Multiplex.Parallel.{AllParallel, construct-IsParallel}
use unix_ipc.Engine.Tcp.Receiver
use unix_ipc.Engine.Tcp.Receiver.{Message, receive, receive_lem}
use unix_ipc.Examples.{address_text}

-- The loop over the messages; the address's text is asked for and shown first.
unfoldable pub show : List Message → Statics → Prog (Unit {0})
show [] statics = skip
show ((socket, buffer) ∷ messages) statics = do
  (address, statics') ← address_text socket statics
  call_ (prints address)
  text ← or_fault (c_string buffer.array) no_terminator
  call_ (prints text)
  show messages statics'

-- The listener and the messages that `receive(5)` waits for, in at most `rounds` polls with at
-- most `fuel` sessions each.
unfoldable pub await : ℕ → ℕ → ℕ → Prog (World (List Message))
await rounds fuel port = do
  address ← of_ip none port
  listener ← of_address address port
  receive 1024 rounds fuel 0 5 (Receiver.make listener)

-- `main`, with `port` the value of `std::stoi(argv[1])`.
unfoldable pub main : ℕ → ℕ → ℕ → ℕ → Prog ℤ
unfolding show await
main rounds fuel argc port =
    if argc == 2
    then (do w ← await rounds fuel port; show w.client initial_statics; pure (pos 0))
    else throw no_arguments

-- When the receiver example's wait for messages returns, there are at least the five messages that
-- it asked for, and each poll set has the descriptors of its sessions, in their order.
pub await_lem :
    (rounds fuel port : ℕ) (w : World (List Message)) (os : Os) (h g : List Call)
    → await rounds fuel port os h ≡ (ok w, g)
    → (5 ≤ length w.client) × AllParallel w
unfolding await
await_lem rounds fuel port w os h g e =
    let wait : TcpListener → Prog (World (List Message)) =
      λ l. receive 1024 rounds fuel 0 5 (Receiver.make l) in
    let (address, g1, _, e1) =
      >>=-eq-ok (of_ip none port) (λ address. of_address address port >>= wait) os h e in
    let (l, g2, _, e2) = >>=-eq-ok (of_address address port) wait os g1 e1 in
    let (enough, _, all) =
      receive_lem 1024 os rounds fuel 0 5 (Receiver.make l) w g2 g e2
        (λ b. construct-IsParallel b l) in
    (enough, all)
