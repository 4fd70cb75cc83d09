-- ===== src/Clients/TcpClient/Address.antt =====
-- The address that the TCP client connects to.
use unix_ipc.Prelude.{some, ℕ, ◌≡◌, refl, Bytes, pos, List, [], ◌∷◌, ◌++◌, replicate, store_at}
use unix_ipc.Sys.{Call, Os, ok, parses_address}
use unix_ipc.Engine.Address.{htons_bytes, inet_pton}
use unix_ipc.Servers.Request.{error_handler}
use unix_ipc.Clients.TcpClient.{server_address}

-- For a text that `inet_pton` accepts, the TCP client connects to an address whose family is the
-- first two bytes of the parsed address, whose port is the one given, and whose address is 0.0.0.0.
pub server_address_lem :
    (ip : Bytes) (port b0 b1 b2 b3 : ℕ) (os : Os) (h : List Call)
    → (os h (parses_address ip)).result ≡ pos 1
    → (os h (parses_address ip)).bytes ≡ b0 ∷ b1 ∷ b2 ∷ b3 ∷ []
    → server_address ip (some port) os h
      ≡ (ok (b0 ∷ b1 ∷ htons_bytes port ++ replicate 12 0), parses_address ip ∷ h)
unfolding server_address inet_pton error_handler store_at
server_address_lem ip port b0 b1 b2 b3 os h e f = rw (e, f) refl
