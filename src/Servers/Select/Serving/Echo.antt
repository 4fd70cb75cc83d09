-- ===== src/Servers/Select/Serving/Echo.antt =====
-- What the clients of the server over `select` see of a whole run.
use unix_ipc.Prelude.{ℕ, ◌<◌, ◌≡◌, refl, true, false, ℤ, pos, List, [], ◌∷◌}
use unix_ipc.Sys.{Call, Os, ok, pure, makes_socket}
use unix_ipc.Sys.Ensures.{partial, Ensures, >>=-Ensures, Ensures-ok}
use unix_ipc.Servers.Request.{server_calls}
use unix_ipc.Servers.Descriptors.{opened, GivesFresh}
use unix_ipc.Servers.Service.Echo.{Echoes, Faithful, stopped, not-eq-false, serve-Faithful}
use unix_ipc.Servers.Select.{State, fd_set, serve, initial, main}
use unix_ipc.Servers.Select.Rules.{fd_set-Ensures, finish-Ensures, main-Ensures}
use unix_ipc.Servers.Select.Watched.{Tracks}
use unix_ipc.Servers.Select.Serving.{views}
use unix_ipc.Servers.Select.Serving.Rounds.{select_server}

module _ (os : Os) where
  abbrev begun : ℕ → List ℕ → State
  begun l set = record { clients = []; allset = set; maxfd = l; is_running = true }

  begun-Tracks :
      (l port : ℕ)
      → (os [] (makes_socket 2 1)).result ≡ pos l
      → Tracks os l (begun l (l ∷ [])) (server_calls port l [])
  unfolding opened
  begun-Tracks l port e = record {
    watched = λ fd. refl;
    open_fds = λ fd. rw e refl;
    distinct = (refl, tt);
  }

  initial-Ensures :
      (l port : ℕ)
      → (os [] (makes_socket 2 1)).result ≡ pos l
      → Ensures partial
          (initial l)
          os
          (server_calls port l [])
          (λ s g. Tracks os l s g × Faithful os s.is_running g)
  unfolding initial
  initial-Ensures l port e =
      >>=-Ensures partial (fd_set l []) (λ set. pure (begun l set)) os (server_calls port l [])
        (λ set g. (l < 1024) × (set ≡ l ∷ []) × (g ≡ server_calls port l []))
        (λ s g. Tracks os l s g × Faithful os s.is_running g)
        (fd_set-Ensures partial tt l [] os (server_calls port l []))
        (λ set g q. rw (q.1, q.2) (begun-Tracks l port e, (λ fd. refl, refl)))

  -- Where `accept` gives out no open descriptor, in a run of the server over `select` that returns
  -- from `main` the texts written to each descriptor are those that were read from it and are not
  -- "stop" with its line end, in their order and as often, and that text was read from some
  -- descriptor; a text read is what stands in the cleared buffer up to its first NUL, unless `read`
  -- gave nothing.
  pub main-Echoes-stopped :
      (fuel argc port : ℕ) (n : ℤ) (g : List Call)
      → GivesFresh os
      → main fuel argc port os [] ≡ (ok n, g)
      → Echoes os g × (stopped os g ≡ true)
  main-Echoes-stopped fuel argc port n g fresh e =
      let faithful : Faithful os false g =
        Ensures-ok partial (main fuel argc port os []) (λ _. Faithful os false)
          (main-Ensures os fuel argc port (λ l s h. Tracks os l s h × Faithful os s.is_running h)
            (λ l s h. Tracks os l s h × Faithful os false h) (Faithful os false)
            (λ l e. initial-Ensures l port e)
            (λ l s h (t, f).
              serve-Faithful os l (views os l) (λ fuel. serve fuel l) (select_server os l fresh)
                fuel s h t f)
            (λ l s h _ (t, f). finish-Ensures os (Faithful os false) (λ n h f. f) l s h f))
          e in
      (faithful.0, not-eq-false (stopped os g) faithful.1)
