-- ===== src/Clients/TcpClient/Talking.antt =====
-- The TCP client and the simple TCP server, each at its end of one connection.
use unix_ipc.Prelude.{
  ℕ, suc, ◌≡◌, ◌<◌, refl, ap, Bool, Bytes, ℤ, pos, List, [], ◌∷◌, map, length, arith,
}
use unix_ipc.Sys.{Call, Os, ok, Answers, after}
use unix_ipc.Servers.Request.{request_buffer}
use unix_ipc.Servers.SimpleTcp.{handle_connect}
use unix_ipc.Servers.SimpleTcp.Connect.{connection, handle_connect_lem}
use unix_ipc.Servers.SimpleTcp.Connect
use unix_ipc.Clients.TcpClient.{talk}
use unix_ipc.Clients.TcpClient.Session.{IsTalk, line, line-NoNul, length-line, session, talk_lem}

-- What the server receives, with the results of its writes.
abbrev pub lines : List Bytes → List (Bytes × ℤ)
lines = map (λ word. (line word, pos 1024))

lines-IsTalk : (words : List Bytes) → IsTalk words → Connect.IsTalk (lines words)
lines-IsTalk [] t = tt
lines-IsTalk (word ∷ words) (w, n, m, t) = (
  (line-NoNul word w.0, omega (arith, length-line word), omega (arith, w.1, length-line word)),
  m,
  lines-IsTalk words t,
)

length-lines : (words : List Bytes) → length (lines words) ≡ length words
length-lines [] = refl
length-lines (word ∷ words) = ap suc (length-lines words)

-- Where the systems of the TCP client and of the simple TCP server answer as in one connection, and
-- the user types words without a NUL of at most 1021 bytes, none of them a command, and then
-- "close" or "stop", both loops end with one round more than there are words: the client sends each
-- word as a line, gets the line at the start of a full buffer and shows exactly the line, and the
-- server goes on with the next client after "close" and ends after "stop".
pub talk-handle_connect :
    (fuel cfd sfd : ℕ) (words : List Bytes) (closes : Bool) (client server : Os) (hc hs : List Call)
    → IsTalk words
    → length words < fuel
    → Answers client hc (session cfd words closes)
    → Answers server hs (connection (pos sfd) (lines words) closes)
    → (talk fuel cfd client hc ≡ (ok tt, after (session cfd words closes) hc))
      × (handle_connect fuel (pos sfd) request_buffer server hs
          ≡ (ok closes, after (connection (pos sfd) (lines words) closes) hs))
talk-handle_connect fuel cfd sfd words closes client server hc hs t l a b = (
  talk_lem fuel cfd words closes client hc t l a,
  handle_connect_lem fuel (pos sfd) (lines words) closes server hs (lines-IsTalk words t)
      (omega (arith, l, length-lines words)) b,
)
