-- ===== src/Fifo/Session/Many.antt =====
-- The echo server and any number of clients, one after the other.
use unix_ipc.Prelude.{
  ℕ, zero, suc, ◌≡◌, ◌<◌, ◌≤◌, refl, ap, Bytes, ℤ, pos, List, [], ◌∷◌, ◌++◌, map, length, NoNul,
  append_assoc, append-nil, arith,
}
use unix_ipc.Sys.{
  Call, Reply, Os, ok, opens, makes_fifo, unlinks, reads, writes, closes, prints, allocates,
  read_only, write_only, non_block, returns, gives, Answers, after,
}
use unix_ipc.Fifo.Package.{
  message, new_connection, connection_success, connection_close, default_package,
}
use unix_ipc.Fifo.Transfer.{wire, pack_lem, unpack_lem, length-wire, clear_buffer-empty}
use unix_ipc.Fifo.Files.{open_file, create_fifo, close_fifo, close_file}
use unix_ipc.Fifo.EchoServer.{
  Connections, main, serve, accept, create_new_session, initial_connections,
}
use unix_ipc.Fifo.EchoClient.{request}
use unix_ipc.Fifo.Session.Script.{
  behind, written, server_read_whole, write_whole, Fits-short, shown_lem,
}

-- A client: the name of its pipe, its message, the descriptor that it puts into its packages, the
-- one that the server gets for its pipe, and the memory behind the server's blocks.
pub record Visit : Type 0 where
  pub name : Bytes
  pub text : Bytes
  pub fd : ℤ
  pub theirs : ℕ
  pub heap : Bytes
  pub heap' : Bytes

abbrev pub IsFine : List Visit → Type 0
IsFine [] = Unit {0}
IsFine (v ∷ vs) =
    (NoNul v.name × (length v.name ≤ 1012)) × (NoNul v.text × (length v.text ≤ 1012)) × IsFine vs

-- What the server is answered by its clients, before `last`.
abbrev pub visits : ℕ → List Visit → List (Call × Reply) → List (Call × Reply)
visits mine [] last = last
visits mine (v ∷ vs) last =
    (reads (pos mine) 1024, gives (wire (request v.fd new_connection v.name)))
    ∷ (prints (1 ∷ []), returns (pos 0))
    ∷ (allocates, behind v.heap)
    ∷ (prints v.name, returns (pos 0))
    ∷ (opens v.name (write_only ∷ non_block ∷ []), returns (pos v.theirs))
    ∷ (writes (pos v.theirs) (wire (request (pos mine) connection_success [])), written)
    ∷ (reads (pos mine) 1024, gives (wire (request v.fd message v.text)))
    ∷ (prints [], returns (pos 0))
    ∷ (allocates, behind v.heap')
    ∷ (prints v.text, returns (pos 0))
    ∷ (writes (pos v.theirs) (wire (request v.fd message v.text)), written)
    ∷ visits mine vs last

-- A farewell, before `last`.
abbrev pub farewell : ℕ → ℤ → Bytes → List (Call × Reply) → List (Call × Reply)
farewell mine fd heap last =
    (reads (pos mine) 1024, gives (wire (request fd connection_close [])))
    ∷ (prints (3 ∷ []), returns (pos 0))
    ∷ (allocates, behind heap)
    ∷ last

module _ (mine : ℕ) (fd : ℤ) (heap : Bytes) where
  -- The calls of the clients' visits and of the farewell.
  abbrev pub visited : List Visit → List Call → List Call
  visited vs h = after (visits mine vs (farewell mine fd heap [])) h

  -- The replies of a whole run of the server.
  abbrev pub run_script : Bytes → List Visit → List (Call × Reply)
  run_script server vs =
      (makes_fifo server, returns (pos 0))
      ∷ (opens server (read_only ∷ []), returns (pos mine))
      ∷ visits mine vs (
          farewell mine fd heap
            ((unlinks server, returns (pos 0)) ∷ (closes (pos mine), returns (pos 0)) ∷ []))

module _ (mine : ℕ) (fd : ℤ) (heap : Bytes) (os : Os) where
  Answers-last :
      (vs : List Visit) (last : List (Call × Reply)) (h : List Call)
      → Answers os h (visits mine vs (farewell mine fd heap last))
      → Answers os (visited mine fd heap vs h) last
  Answers-last [] last h (a1, (a2, (a3, a))) = a
  Answers-last (v ∷ vs) last h
        (a1, (a2, (a3, (a4, (a5, (a6, (a7, (a8, (a9, (a10, (a11, a))))))))))) =
      Answers-last vs last _ a

  serve_lem :
      (vs : List Visit) (last : List (Call × Reply)) (rounds tries : ℕ) (cs : Connections)
      (h : List Call)
      → length vs < rounds
      → IsFine vs
      → Answers os h (visits mine vs (farewell mine fd heap last))
      → serve rounds (suc tries) (pos mine) cs os h
        ≡ (ok (cs ++ map (λ v. pos v.theirs) vs), visited mine fd heap vs h)
  unfolding serve accept create_new_session open_file
  serve_lem vs last zero tries cs h l f a = absurd (omega (arith, l))
  serve_lem [] last (suc rounds) tries cs h l f (a1, (a2, (a3, a))) =
      let p = Fits-short connection_close [] fd tt tt (omega arith) in
      rw
        (
          server_read_whole tries (pos mine) _ _ os _ (length-wire _ p)
              (shown_lem connection_close [] fd tt) a1,
          unpack_lem _ default_package heap os _ p (ap (λ r. r.bytes) a3),
          append-nil cs,
        )
        refl
  serve_lem (v ∷ vs) last (suc rounds) tries cs h l ((n1, l1), (n2, l2), f)
        (a1, (a2, (a3, (a4, (a5, (a6, (a7, (a8, (a9, (a10, (a11, a))))))))))) =
      let f1 = Fits-short new_connection v.name v.fd tt n1 l1 in
      let f2 = Fits-short connection_success [] (pos mine) tt tt (omega arith) in
      let f3 = Fits-short message v.text v.fd tt n2 l2 in
      rw
        (
          server_read_whole tries (pos mine) _ _ os _ (length-wire _ f1)
              (shown_lem new_connection v.name v.fd tt) a1,
          unpack_lem _ default_package v.heap os _ f1 (ap (λ r. r.bytes) a3),
          a5,
          clear_buffer-empty _ (length-wire _ f1),
          pack_lem (request (pos mine) connection_success []) os _ f2,
          write_whole (pos v.theirs) _ os _ (length-wire _ f2) a6,
          server_read_whole tries (pos mine) _ _ os _ (length-wire _ f3)
              (shown_lem message v.text v.fd tt) a7,
          unpack_lem _ default_package v.heap' os _ f3 (ap (λ r. r.bytes) a9),
          write_whole (pos v.theirs) _ os _ (length-wire _ f3) a11,
          serve_lem vs last rounds tries (cs ++ pos v.theirs ∷ []) _ (omega (arith, l)) f a,
          append_assoc cs (pos v.theirs ∷ []) (map (λ v. pos v.theirs) vs),
        )
        refl

  after-last :
      (vs : List Visit) (last : List (Call × Reply)) (h : List Call)
      → after (visits mine vs (farewell mine fd heap last)) h
        ≡ after last (visited mine fd heap vs h)
  after-last [] last h = refl
  after-last (v ∷ vs) last h = after-last vs last _

  -- Where the calls of the echo server are answered as in a run in which any number of clients come
  -- one after the other, each announcing its pipe and then sending one message, and one says
  -- farewell after them, with names and messages of at most 1012 bytes without a NUL, and a NUL
  -- stands right behind each block that the server allocates for the data of a package, the server
  -- opens the pipe of each client for writing only, confirms the connection there, writes each
  -- message unchanged into the pipe of its client, closes none of these pipes, removes and closes
  -- its own pipe at the farewell and ends with 0; one more round than there are clients is enough.
  pub server_visits :
      (server : Bytes) (vs : List Visit) (rounds tries : ℕ) (h : List Call)
      → length vs < rounds
      → IsFine vs
      → Answers os h (run_script mine fd heap server vs)
      → main rounds (suc tries) 2 server os h
        ≡ (ok (pos 0), after (run_script mine fd heap server vs) h)
  unfolding main create_fifo open_file close_fifo close_file
  server_visits server vs rounds tries h l f (a1, (a2, a)) =
      let last : List (Call × Reply) =
        (unlinks server, returns (pos 0)) ∷ (closes (pos mine), returns (pos 0)) ∷ [] in
      let (b1, (b2, _)) = Answers-last vs last _ a in
      rw
        (
          a1,
          a2,
          serve_lem vs last rounds tries initial_connections _ l f a,
          b1,
          b2,
          after-last vs last (opens server (read_only ∷ []) ∷ makes_fifo server ∷ h),
        )
        refl
