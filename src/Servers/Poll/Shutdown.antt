-- ===== src/Servers/Poll/Shutdown.antt =====
-- The whole `main` of the server over `poll`, from the first `socket` to the last `close`.
use unix_ipc.Prelude.{ℕ, ◌≡◌, refl, sym, ap, subst, ◌∙◌, false, ℤ, pos, List, [], ◌∷◌, arith}
use unix_ipc.Sys.{Call, Os, ok, makes_socket, closes}
use unix_ipc.Sys.Ensures.{partial, inside, Ensures, Ensures-ok, Ensures-partial}
use unix_ipc.Servers.Request.{checked-Ensures, server_calls, has}
use unix_ipc.Servers.Descriptors.{opened, GivesFresh, Distinct, has-remove}
use unix_ipc.Servers.Poll.{Entry, State, fds, close_all, initial, main}
use unix_ipc.Servers.Poll.Rules.{main-Ensures}
use unix_ipc.Servers.Poll.Watching.{Watches}
use unix_ipc.Servers.Poll.Rounds.{serve-Watches}

module _ (os : Os) where
  -- Exactly the descriptors of a list are open.
  abbrev Open : List ℕ → List Call → Type 0
  Open xs h = (fd : ℕ) → has fd (opened os h) ≡ has fd xs

  closed-Open :
      (fd : ℕ) (xs : List ℕ) (h : List Call)
      → has fd xs ≡ false
      → Open (fd ∷ xs) h
      → Open xs (closes (pos fd) ∷ h)
  unfolding opened
  closed-Open fd xs h n o x = ground (arith, has-remove x fd (opened os h), o x)

  started-Open :
      (l port : ℕ)
      → (os [] (makes_socket 2 1)).result ≡ pos l
      → Open (l ∷ []) (server_calls port l [])
  unfolding opened
  started-Open l port e x = rw e refl

  close_all-Open :
      (es : List Entry) (h : List Call)
      → Distinct (fds es)
      → Open (fds es) h
      → Ensures inside (close_all es) os h (λ _ g. Open [] g)
  unfolding close_all
  close_all-Open [] h d o = o
  close_all-Open (e ∷ es) h d o =
      checked-Ensures inside (closes (pos e.fd)) (λ _. close_all es) os h (λ _ g. Open [] g)
        (λ _ _. close_all-Open es (closes (pos e.fd) ∷ h) d.1 (closed-Open e.fd (fds es) h d.0 o))

  pub started-Watches :
      (l port : ℕ)
      → (os [] (makes_socket 2 1)).result ≡ pos l
      → Watches os l (initial l) (server_calls port l [])
  unfolding initial
  started-Watches l port e = record {
    clients = [];
    entries = refl;
    open_fds = started-Open l port e;
    distinct = (refl, tt);
  }

  finished-Open :
      (l : ℕ) (s : State) (h : List Call)
      → Watches os l s h
      → Ensures inside (close_all s.clients) os h (λ _ g. Open [] g)
  finished-Open l s h w =
      close_all-Open s.clients h (subst Distinct (sym w.entries) w.distinct)
        (λ x. w.open_fds x ∙ ap (has x) (sym w.entries))

  main-Open :
      GivesFresh os
      → (fuel argc port : ℕ) → Ensures partial (main fuel argc port) os [] (λ _ g. Open [] g)
  main-Open fresh fuel argc port =
      main-Ensures os fuel argc port (λ l s g. Watches os l s g × (s.is_running ≡ false)) (Open [])
        (λ l e.
          serve-Watches os l fresh fuel (initial l) (server_calls port l [])
            (started-Watches l port e))
        (λ l s g (w, _).
          Ensures-partial inside (close_all s.clients os g) (λ _ g. Open [] g)
            (finished-Open l s g w))

  -- Where `accept` gives out no open descriptor, a run of the server over `poll` that returns from
  -- `main`, whatever its clients did, leaves no descriptor open.
  pub main-closes :
      (fuel argc port : ℕ) (n : ℤ) (g : List Call)
      → GivesFresh os
      → main fuel argc port os [] ≡ (ok n, g)
      → (fd : ℕ) → has fd (opened os g) ≡ false
  main-closes fuel argc port n g fresh e =
      Ensures-ok partial (main fuel argc port os []) (λ _ g. Open [] g)
        (main-Open fresh fuel argc port) e
