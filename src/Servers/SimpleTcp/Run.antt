-- ===== src/Servers/SimpleTcp/Run.antt =====
-- A whole run of the simple server: clients that hang up, one after the other, and one that stops
-- the server.
use unix_ipc.Prelude.{
  ℕ, zero, suc, ◌<◌, ◌≡◌, refl, ap, ◌∙◌, sym, Bool, true, false, Bytes, ℤ, pos, List, [], ◌∷◌, ◌++◌,
  length, if◌then◌else◌, arith,
}
use unix_ipc.Sys.{
  Call, Reply, Os, ok, makes_socket, binds, listens, accepts, closes, returns, Answers, after, pure,
}
use unix_ipc.Sys.Replay.{after-append, Answers-append}
use unix_ipc.Engine.NativeSocket.{make_socket, bind_socket, close_socket}
use unix_ipc.Servers.Request.{any_address}
use unix_ipc.Servers.SimpleTcp.{serve, main}
use unix_ipc.Servers.SimpleTcp.Connect.{connection, IsTalk, handle_connect_lem}

-- The descriptor of a client, its texts, and what `write` returns for each.
abbrev pub Guest : Type 0
Guest = ℕ × List (Bytes × ℤ)

-- A client, whose descriptor is closed in the end.
abbrev pub visit : ℕ → Guest → Bool → List (Call × Reply)
visit l (fd, talk) goes_on =
    (accepts (pos l), returns (pos fd)) ∷ connection (pos fd) talk goes_on
    ++ (closes (pos fd), returns (pos 0)) ∷ []

abbrev pub visits : ℕ → List Guest → Guest → List (Call × Reply)
visits l [] last = visit l last false
visits l (g ∷ gs) last = visit l g true ++ visits l gs last

-- Every client sends texts that the server sends back, fewer of them than `reads`.
abbrev pub AllTalk : ℕ → List Guest → Type 0
AllTalk reads [] = Unit {0}
AllTalk reads ((fd, talk) ∷ gs) = (IsTalk talk × (length talk < reads)) × AllTalk reads gs

module _ (reads l : ℕ) (os : Os) where
  serve-visit :
      (fuel fd : ℕ) (talk : List (Bytes × ℤ)) (goes_on : Bool) (h : List Call)
      → IsTalk talk
      → length talk < reads
      → Answers os h (visit l (fd, talk) goes_on)
      → serve (suc fuel) reads (pos l) os h
        ≡ (if goes_on then serve fuel reads (pos l) else pure tt) os
            (after (visit l (fd, talk) goes_on) h)
  unfolding serve close_socket
  serve-visit fuel fd talk goes_on h t n (a, b) =
      let (c, (d, _)) =
        Answers-append (connection (pos fd) talk goes_on) ((closes (pos fd), returns (pos 0)) ∷ [])
          os (accepts (pos l) ∷ h) b in
      rw
        (
          a,
          handle_connect_lem reads (pos fd) talk goes_on os (accepts (pos l) ∷ h) t n c,
          d,
          after-append (connection (pos fd) talk goes_on) ((closes (pos fd), returns (pos 0)) ∷ [])
              (accepts (pos l) ∷ h),
        )
        refl

  serve-visits :
      (gs : List Guest) (last : Guest) (fuel : ℕ) (h : List Call)
      → length gs < fuel
      → AllTalk reads gs
      → IsTalk last.1
      → length last.1 < reads
      → Answers os h (visits l gs last)
      → serve fuel reads (pos l) os h ≡ (ok tt, after (visits l gs last) h)
  serve-visits gs last zero h n t u m a = absurd (omega (arith, n))
  serve-visits [] (fd, talk) (suc fuel) h n t u m a = serve-visit fuel fd talk false h u m a
  serve-visits ((fd, talk) ∷ gs) last (suc fuel) h n (t, ts) u m a =
      let (b, c) = Answers-append (visit l (fd, talk) true) (visits l gs last) os h a in
      serve-visit fuel fd talk true h t.0 t.1 b
      ∙ serve-visits gs last fuel (after (visit l (fd, talk) true) h) (omega (arith, n)) ts u m c
      ∙ ap (λ g. (ok tt, g)) (sym (after-append (visit l (fd, talk) true) (visits l gs last) h))

-- The replies of a whole run; that of `listen` is not looked at.
abbrev pub run_script : ℕ → ℕ → ℤ → List Guest → Guest → List (Call × Reply)
run_script l port z gs last =
    (makes_socket 2 1, returns (pos l))
      ∷ (binds (pos l) (any_address port), returns (pos 0))
      ∷ (listens (pos l) 10, returns z)
      ∷ visits l gs last
    ++ (closes (pos l), returns (pos 0)) ∷ []

-- Where the calls of the simple TCP server are answered as in a run in which any number of clients
-- come one after the other, each sending texts of 1 to 1023 bytes without a NUL that are not "stop"
-- with its line end, all but the last hanging up and the last then sending "stop", the server sends
-- each text back at the start of a full buffer, closes the descriptor of each client before it
-- accepts the next, closes its own and ends with 0; more rounds than there are clients before the
-- last, and more reads than each client has texts, are enough.
pub main-visits :
    (fuel reads l port : ℕ) (z : ℤ) (gs : List Guest) (last : Guest) (os : Os) (h : List Call)
    → length gs < fuel
    → AllTalk reads (last ∷ gs)
    → Answers os h (run_script l port z gs last)
    → main fuel reads port os h ≡ (ok (pos 0), after (run_script l port z gs last) h)
unfolding main make_socket bind_socket close_socket
main-visits fuel reads l port z gs last os h n t (a, (b, (_, c))) =
    let started = listens (pos l) 10 ∷ binds (pos l) (any_address port) ∷ makes_socket 2 1 ∷ h in
    let (d, (e, _)) =
      Answers-append (visits l gs last) ((closes (pos l), returns (pos 0)) ∷ []) os started c in
    rw
      (
        a,
        b,
        serve-visits reads l os gs last fuel started n t.1 t.0.0 t.0.1 d,
        e,
        after-append (visits l gs last) ((closes (pos l), returns (pos 0)) ∷ []) started,
      )
      refl
