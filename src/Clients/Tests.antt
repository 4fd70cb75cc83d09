-- ===== src/Clients/Tests.antt =====
-- Small runs of the clients.
use unix_ipc.Prelude.{
  ℕ, zero, suc, ◌≡◌, ◌≢◌, refl, Bytes, pos, List, [], ◌∷◌, length, replicate, length-replicate,
  NoNul, arith, false,
}
use unix_ipc.Sys.{
  Call, Reply, Os, ok, faults, Fault, receives, sends, binds, makes_socket, prints, reads_word,
  returns, gives, after,
}
use unix_ipc.Sys.Replay.{replay, replay-Answers}
use unix_ipc.Servers.Request.{request_buffer}
use unix_ipc.Servers.SimpleTcp.{handle_connect}
use unix_ipc.Servers.SimpleTcp.Connect.{connection}
use unix_ipc.Servers.SimpleUdp
use unix_ipc.Servers.SimpleUdp.{local_address}
use unix_ipc.Clients.UdpClient
use unix_ipc.Clients.UdpClient.{hello}
use unix_ipc.Clients.UdpClient.Greeting.{datagram, main-main}
use unix_ipc.Clients.TcpClient.{talk}
use unix_ipc.Clients.TcpClient.Session.{session}
use unix_ipc.Clients.TcpClient.Talking.{lines, talk-handle_connect}
use unix_ipc.Clients.TcpClient.Overflow.{talk_long}

-- The user types "hi" and then "stop".
abbrev hi : List Bytes
hi = (104 ∷ 105 ∷ []) ∷ []

abbrev client_calls : List (Call × Reply)
client_calls = session 3 hi false

abbrev server_calls : List (Call × Reply)
server_calls = connection (pos 4) (lines hi) false

talk-handle_connect_example :
    (talk 2 3 (replay client_calls) [] ≡ (ok tt, after client_calls []))
    × (handle_connect 2 (pos 4) request_buffer (replay server_calls) []
        ≡ (ok false, after server_calls []))
talk-handle_connect_example =
    talk-handle_connect 2 3 4 hi false (replay client_calls) (replay server_calls) [] []
      ((ground arith, omega arith), refl, refl, tt) (omega arith) (replay-Answers client_calls)
      (replay-Answers server_calls)

NoNul-replicate : (n a : ℕ) → a ≢ 0 → NoNul (replicate n a)
NoNul-replicate zero a h = tt
NoNul-replicate (suc n) a h = (h, NoNul-replicate n a h)

unfoldable long_word : Bytes
long_word = replicate 1022 97

length-long_word : length long_word ≡ 1022
unfolding long_word
length-long_word = length-replicate {A = ℕ} 1022 97

long_word-NoNul : NoNul long_word
unfolding long_word
long_word-NoNul = NoNul-replicate 1022 97 (ground arith)

talk_long_example :
    (x : Fault) × (talk 1 3 (λ h c. gives long_word) [] ≡ (faults x, reads_word ∷ []))
talk_long_example =
    talk_long 0 3 long_word (λ h c. gives long_word) [] long_word-NoNul
      (omega (arith, length-long_word)) refl

-- Memory of a sender and of a receiver.
abbrev mine : Bytes
mine = replicate 1024 170

abbrev yours : Bytes
yours = replicate 1024 85

abbrev udp : Os
udp h (receives fd size) = gives (datagram mine)
udp h c = returns (pos 3)

main-main_example :
    (UdpClient.main mine 2 80 udp [] ≡ (
      ok (pos 0),
      prints hello ∷ sends (pos 3) (datagram mine) (local_address 80) ∷ makes_socket 2 2 ∷ [],
    ))
    × (SimpleUdp.main yours 2 80 udp [] ≡ (
      ok (pos 0),
      prints hello
          ∷ receives (pos 3) 1024
          ∷ binds (pos 3) (local_address 80)
          ∷ makes_socket 2 2
          ∷ [],
    ))
main-main_example =
    main-main 80 mine yours udp udp (length-replicate {A = ℕ} 1024 170)
      (length-replicate {A = ℕ} 1024 85) refl
