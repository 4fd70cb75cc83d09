-- ===== src/Clients/UdpClient/Greeting.antt =====
-- The datagram of the UDP client, and what the UDP server shows of it.
use unix_ipc.Prelude.{
  ℕ, ◌≡◌, refl, ap, sym, ◌∙◌, Bytes, pos, some, [], ◌∷◌, ◌++◌, length, length-append, length-drop,
  drop, store_at, store_at-append, load_at, load_at-append, append-nil, fill, fill_all, arith,
}
use unix_ipc.Sys.{Os, ok, makes_socket, binds, receives, sends, prints, gives}
use unix_ipc.Servers.SimpleUdp
use unix_ipc.Servers.SimpleUdp.{local_address}
use unix_ipc.Clients.UdpClient
use unix_ipc.Clients.UdpClient.{hello}

-- The text, its NUL, and what the memory of the sender held behind them.
abbrev pub datagram : Bytes → Bytes
datagram memory = (hello ++ 0 ∷ []) ++ drop 14 memory

length-datagram : (memory : Bytes) → length memory ≡ 1024 → length (datagram memory) ≡ 1024
length-datagram memory l =
    omega (arith, l, length-append (hello ++ 0 ∷ []) (drop 14 memory), length-drop 14 memory)

stored :
    (memory : Bytes)
    → length memory ≡ 1024
    → store_at memory 0 (hello ++ 0 ∷ []) ≡ some (datagram memory)
stored memory l = store_at-append 0 [] memory (hello ++ 0 ∷ []) refl (omega (arith, l))

loaded :
    (memory : Bytes)
    → length memory ≡ 1024
    → load_at (datagram memory) 0 1024 ≡ some (datagram memory)
loaded memory l =
    ap (λ bs. load_at bs 0 1024) (sym (append-nil (datagram memory)))
    ∙ load_at-append 0 1024 [] (datagram memory) [] refl (length-datagram memory l)

taken :
    (mine yours : Bytes)
    → length mine ≡ 1024
    → length yours ≡ 1024
    → fill yours (datagram mine) ≡ datagram mine
taken mine yours l m = fill_all yours (datagram mine) (omega (arith, length-datagram mine l, m))

-- The UDP client sends its greeting with a NUL and the rest of its array, 1024 bytes whatever the
-- memory held; the UDP server that receives this datagram shows exactly the greeting, whatever its
-- own memory held, and both end with 0.
pub main-main :
    (port : ℕ) (mine yours : Bytes) (client server : Os)
    → length mine ≡ 1024
    → length yours ≡ 1024
    → (let sfd = (server [] (makes_socket 2 2)).result in
        server (binds sfd (local_address port) ∷ makes_socket 2 2 ∷ []) (receives sfd 1024)
        ≡ gives (datagram mine))
    → (let cfd = (client [] (makes_socket 2 2)).result in
        let sfd = (server [] (makes_socket 2 2)).result in
        (UdpClient.main mine 2 port client [] ≡ (
          ok (pos 0),
          prints hello ∷ sends cfd (datagram mine) (local_address port) ∷ makes_socket 2 2 ∷ [],
        ))
        × (SimpleUdp.main yours 2 port server [] ≡ (
          ok (pos 0),
          prints hello ∷ receives sfd 1024 ∷ binds sfd (local_address port) ∷ makes_socket 2 2 ∷ [],
        )))
unfolding UdpClient.main SimpleUdp.main SimpleUdp.receive
main-main port mine yours client server l m e =
    (rw (stored mine l, loaded mine l) refl, rw (e, taken mine yours l m) refl)
