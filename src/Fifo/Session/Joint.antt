-- ===== src/Fifo/Session/Joint.antt =====
-- Both sides of a session at once.
use unix_ipc.Prelude.{
  ℕ, suc, ◌≡◌, refl, ap, Bytes, ℤ, pos, ◌==ℤ◌, ==ℤ_refl, List, [], ◌∷◌, length, NoNul, ◌≤◌,
  if◌then◌else◌,
}
use unix_ipc.Sys.{Call, Reply, Os, ok, reads, writes, Answers}
use unix_ipc.Fifo.EchoServer
use unix_ipc.Fifo.EchoClient
use unix_ipc.Fifo.Session.Server.{server_script, server_session}
use unix_ipc.Fifo.Session.Client.{client_script, client_session}

-- What was written to a descriptor, newest first.
unfoldable pub written_to : ℤ → List Call → List Bytes
written_to fd [] = []
written_to fd (writes x bytes ∷ h) = if x ==ℤ fd then bytes ∷ written_to fd h else written_to fd h
written_to fd (_ ∷ h) = written_to fd h

-- What the reads of a descriptor were given, newest first.
unfoldable pub taken_from : Os → ℤ → List Call → List Bytes
taken_from os fd [] = []
taken_from os fd (reads x n ∷ h) =
    if x ==ℤ fd then (os h (reads x n)).bytes ∷ taken_from os fd h else taken_from os fd h
taken_from os fd (_ ∷ h) = taken_from os fd h

module _ (server client : Bytes) (sr sw cr cw : ℕ) (heap1 heap2 heap3 heap4 heap5 : Bytes) where
  abbrev pub served : List (Call × Reply)
  served = server_script server client sr sw (pos cr) heap1 heap2 heap3

  abbrev pub asked : List (Call × Reply)
  asked = client_script server client cr cw (pos sr) heap4 heap5

  -- Where the systems of the echo server and of a client answer as in a session, with a pipe name
  -- of at most 1012 bytes without a NUL, and a NUL stands right behind each block that the two
  -- programs allocate for the data of a package, both programs end with 0, and the reads of each
  -- side were given, in order, exactly what the other side wrote.
  pub joint_session :
      (fuel tries tries' : ℕ) (os os' : Os)
      → NoNul client
      → length client ≤ 1012
      → Answers os [] served
      → Answers os' [] asked
      → let s = EchoServer.main (suc (suc fuel)) (suc tries) 2 server os [] in
        let c = EchoClient.main (suc tries') 3 server client os' [] in
        (s.0 ≡ ok (pos 0))
        × (c.0 ≡ ok (pos 0))
        × (written_to (pos cw) c.1 ≡ taken_from os (pos sr) s.1)
        × (written_to (pos sw) s.1 ≡ taken_from os' (pos cr) c.1)
  unfolding written_to taken_from server_script client_script
  joint_session fuel tries tries' os os' n l a b =
      rw
        (
          server_session server client sr sw (pos cr) heap1 heap2 heap3 fuel tries os [] n l a,
          client_session server client cr cw (pos sr) heap4 heap5 tries' os' [] n l b,
          ==ℤ_refl (pos cw),
          ==ℤ_refl (pos sr),
          ==ℤ_refl (pos sw),
          ==ℤ_refl (pos cr),
          ap (λ r. r.bytes) a.1.1.0,
          ap (λ r. r.bytes) a.1.1.1.1.1.1.1.1.0,
          ap (λ r. r.bytes) a.1.1.1.1.1.1.1.1.1.1.1.1.1.0,
          ap (λ r. r.bytes) b.1.1.1.1.0,
          ap (λ r. r.bytes) b.1.1.1.1.1.1.1.0,
        )
        (refl, refl, refl, refl)
