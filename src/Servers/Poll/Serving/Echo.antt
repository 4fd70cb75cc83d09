-- ===== src/Servers/Poll/Serving/Echo.antt =====
-- What the clients of the server over `poll` see of a whole run.
use unix_ipc.Prelude.{ℕ, ◌≡◌, refl, true, false, Bool, ℤ, pos, List, [], ◌∷◌}
use unix_ipc.Sys.{Call, Os, ok, makes_socket, closes}
use unix_ipc.Sys.Ensures.{partial, Ensures, Ensures-ok}
use unix_ipc.Servers.Request.{checked-Ensures, server_calls}
use unix_ipc.Servers.Descriptors.{GivesFresh}
use unix_ipc.Servers.Service.Echo.{Echoes, Faithful, stopped, not-eq-false, serve-Faithful}
use unix_ipc.Servers.Poll.{Entry, serve, close_all, initial, main}
use unix_ipc.Servers.Poll.Watching.{Watches}
use unix_ipc.Servers.Poll.Rules.{main-Ensures}
use unix_ipc.Servers.Poll.Shutdown.{started-Watches}
use unix_ipc.Servers.Poll.Serving.{views}
use unix_ipc.Servers.Poll.Serving.Rounds.{poll_server}

module _ (os : Os) where
  close_all-Faithful :
      (b : Bool) (es : List Entry) (h : List Call)
      → Faithful os b h
      → Ensures partial (close_all es) os h (λ _. Faithful os b)
  unfolding close_all
  close_all-Faithful b [] h f = f
  close_all-Faithful b (e ∷ es) h f =
      checked-Ensures partial (closes (pos e.fd)) (λ _. close_all es) os h (λ _. Faithful os b)
        (λ _ _. close_all-Faithful b es (closes (pos e.fd) ∷ h) f)

  loop-Faithful :
      (fuel port l : ℕ)
      → GivesFresh os
      → (os [] (makes_socket 2 1)).result ≡ pos l
      → Ensures partial
          (serve fuel l (initial l))
          os
          (server_calls port l [])
          (λ s g. Watches os l s g × Faithful os false g)
  unfolding initial
  loop-Faithful fuel port l fresh e =
      serve-Faithful os l (views os l) (λ fuel. serve fuel l) (poll_server os l fresh) fuel
        (initial l) (server_calls port l []) (started-Watches os l port e) (λ fd. refl, refl)

  -- Where `accept` gives out no open descriptor, in a run of the server over `poll` that returns
  -- from `main` the texts written to each descriptor are those that were read from it and are not
  -- "stop" with its line end, in their order and as often, and that text was read from some
  -- descriptor; a text read is what stands in the cleared buffer up to its first NUL, unless `read`
  -- gave nothing.
  pub main-Echoes :
      (fuel argc port : ℕ) (n : ℤ) (g : List Call)
      → GivesFresh os
      → main fuel argc port os [] ≡ (ok n, g)
      → Echoes os g × (stopped os g ≡ true)
  main-Echoes fuel argc port n g fresh e =
      let (echoed, b) : Faithful os false g =
        Ensures-ok partial (main fuel argc port os []) (λ _. Faithful os false)
          (main-Ensures os fuel argc port (λ l s g. Watches os l s g × Faithful os false g)
            (Faithful os false) (λ l e. loop-Faithful fuel port l fresh e)
            (λ l s g (w, f). close_all-Faithful false s.clients g f))
          e in
      (echoed, not-eq-false (stopped os g) b)
