-- ===== src/Servers/Poll/Rules.antt =====
-- Rules for the loop and the `main` of the server over `poll`.
use unix_ipc.Prelude.{ℕ, zero, suc, ◌≡◌, sym, subst, true, false, ℤ, pos, negsuc, List, [], ◌==◌}
use unix_ipc.Sys.{Call, Os, Prog, pure, exit, makes_socket, ◌>>=◌, ◌>>◌}
use unix_ipc.Sys.Ensures.{partial, Ensures, >>=-Ensures, if-Ensures}
use unix_ipc.Servers.Request.{server_calls, open_server-Ensures, open_server}
use unix_ipc.Servers.Poll.{State, round, serve, close_all, initial, main}

-- What every round keeps, the loop keeps, and it returns only when the server does not run.
pub serve-Ensures :
    (os : Os) (l : ℕ) (I : State → List Call → Type 0)
    → ((s : State) (h : List Call)
        → s.is_running ≡ true
        → I s h
        → Ensures partial (round l s) os h I)
    → (fuel : ℕ) (s : State) (h : List Call) → I s h
    → Ensures partial (serve fuel l s) os h (λ u g. I u g × (u.is_running ≡ false))
unfolding serve
serve-Ensures os l I k zero s h i = tt
serve-Ensures os l I k (suc fuel) s h i =
    if-Ensures partial s.is_running (round l s >>= serve fuel l) (pure s) os h
      (λ u g. I u g × (u.is_running ≡ false))
      (λ run.
        >>=-Ensures partial (round l s) (serve fuel l) os h I
          (λ u g. I u g × (u.is_running ≡ false)) (k s h run i)
          (λ u g j. serve-Ensures os l I k fuel u g j))
      (λ e. (i, e))

-- The rule for `main`, whose loop and closing are given.
pub main-Ensures :
    (os : Os) (fuel argc port : ℕ) (Q : ℕ → State → List Call → Type 0) (R : List Call → Type 0)
    → ((l : ℕ)
        → (os [] (makes_socket 2 1)).result ≡ pos l
        → Ensures partial (serve fuel l (initial l)) os (server_calls port l []) (Q l))
    → ((l : ℕ) (s : State) (g : List Call)
        → Q l s g
        → Ensures partial (close_all s.clients) os g (λ _. R))
    → Ensures partial (main fuel argc port) os [] (λ _. R)
unfolding main
main-Ensures os fuel argc port Q R loop closing =
    let end : State → Prog ℤ = λ s. close_all s.clients >> pure (pos 0) in
    let run : ℕ → Prog ℤ = λ l. serve fuel l (initial l) >>= end in
    if-Ensures partial (argc == 2) (open_server port >>= run) (exit (negsuc 0)) os [] (λ _. R)
      (λ _.
        >>=-Ensures partial (open_server port) run os []
          (λ l g. ((os [] (makes_socket 2 1)).result ≡ pos l) × (g ≡ server_calls port l []))
          (λ _. R) (open_server-Ensures partial port os [])
          (λ l g q.
            >>=-Ensures partial (serve fuel l (initial l)) end os g (Q l) (λ _. R)
              (subst (λ g. Ensures partial (serve fuel l (initial l)) os g (Q l)) (sym q.1)
                (loop l q.0))
              (λ s g1 p.
                >>=-Ensures partial (close_all s.clients) (λ _. pure (pos 0)) os g1 (λ _. R)
                  (λ _. R) (closing l s g1 p) (λ _ _ r. r))))
      (λ _. tt)
