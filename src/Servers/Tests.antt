-- ===== src/Servers/Tests.antt =====
-- Small runs of the servers over sockets.
use unix_ipc.Prelude.{
  ℕ, ◌≡◌, ◌≢◌, refl, true, inl, inr, ℤ, pos, negsuc, List, [], ◌∷◌, length, fill, ◌==◌,
  if◌then◌else◌, arith, Bool-cases,
}
use unix_ipc.Sys.{
  Call, Reply, Os, ok, out_of_fuel, reads, writes, makes_socket, binds, listens, accepts, selects,
  returns, gives, after,
}
use unix_ipc.Sys.Replay.{replay, replay-Answers, value_or}
use unix_ipc.Servers.Request.{stop, any_address, request_buffer, error_handler, open_server}
use unix_ipc.Servers.Descriptors.{opened, GivesFresh}
use unix_ipc.Servers.Once.{once-GivesFresh}
use unix_ipc.Servers.Select.{
  State, serve, round, handle_request, take_request, reply_to, accept_if, accept_client, requests,
  requests_from, request_at, fd_set, update_maxfd, max_element, initial, finish, close_connections,
  main,
}
use unix_ipc.Servers.Service.{Event, Serves}
use unix_ipc.Servers.Service.Echo.{Echoes, stopped}
use unix_ipc.Servers.Select.Serving.{service}
use unix_ipc.Servers.Select.Serving.Rounds.{serve-Events}
use unix_ipc.Servers.Select.Serving.Echo.{main-Echoes-stopped}
use unix_ipc.Servers.Select.Watched.{Tracks}
use unix_ipc.Servers.Select.Tracking.{serve-Tracks}
use unix_ipc.Servers.Select.Requests.{handle_request_text}
use unix_ipc.Servers.Select.Range.{SelectsInRange}
use unix_ipc.Servers.Select.Range.Rounds.{main-InRange}
use unix_ipc.Servers.Select.Loop.{round-ne-spent}
use unix_ipc.Servers.SimpleTcp
use unix_ipc.Servers.SimpleTcp.Run
use unix_ipc.Servers.SimpleTcp.{handle_connect}
use unix_ipc.Servers.SimpleTcp.Connect.{connection, handle_connect_lem}

-- The listening socket is 3. `accept` succeeds once, in the first round, and gives 4; the client
-- then sends "hi", and "stop" in the round after it.
abbrev one_client : Os
one_client h (makes_socket family type) = returns (pos 3)
one_client h (accepts l) = if length h == 4 then returns (pos 4) else returns (negsuc 0)
one_client h (selects n fds) = record {
  result = pos 1;
  bytes = [];
  revents = [];
  ready = if length h == 3 then pos 3 ∷ [] else pos 4 ∷ [];
}
one_client h (reads fd size) = if length h == 6 then gives (104 ∷ 105 ∷ []) else gives stop
one_client h c = returns (pos 0)

one_client-GivesFresh : GivesFresh one_client
one_client-GivesFresh = once-GivesFresh one_client 4 4 accepting (λ h f t e. cc)
  where
    accepting :
        (h : List Call) (l : ℤ) (n : ℕ)
        → (one_client h (accepts l)).result ≡ pos n
        → (n ≡ 4) × (length h ≡ 4)
    accepting h l n e = elim (Bool-cases (length h == 4)) [
      | inl y ↦ let e' = rw y at e in (ground arith, ground (arith, y))
      | inr f ↦ let e' = rw f at e in cc
    ]

-- The calls of `main` before its loop, and the state then.
abbrev started : List Call
started = listens (pos 3) 10 ∷ binds (pos 3) (any_address 80) ∷ makes_socket 2 1 ∷ []

abbrev first : State
first = record { clients = []; allset = 3 ∷ []; maxfd = 3; is_running = true }

first-Tracks : Tracks one_client 3 first started
unfolding opened
first-Tracks = record { watched = λ fd. refl; open_fds = λ fd. refl; distinct = (refl, tt) }

abbrev last : State
last = value_or (serve 4 3 first one_client started) first

abbrev last_calls : List Call
last_calls = (serve 4 3 first one_client started).1

serve-Tracks_example : Tracks one_client 3 last last_calls
unfolding serve round accept_if accept_client requests requests_from request_at handle_request
    take_request reply_to fd_set update_maxfd max_element error_handler fill request_buffer
serve-Tracks_example =
    serve-Tracks one_client 3 one_client-GivesFresh 4 first last started last_calls refl
      first-Tracks

serve-Events_example :
    (es : List Event) × Serves one_client 3 es (service first) started (service last) last_calls
unfolding serve round accept_if accept_client requests requests_from request_at handle_request
    take_request reply_to fd_set update_maxfd max_element error_handler fill request_buffer
serve-Events_example =
    serve-Events one_client 3 4 first last started last_calls one_client-GivesFresh first-Tracks
      refl

abbrev two_clients : State
two_clients = record { clients = 4 ∷ 5 ∷ []; allset = 5 ∷ 4 ∷ 3 ∷ []; maxfd = 5; is_running = true }

round-ne-spent_example : (round 3 two_clients one_client started).0 ≢ out_of_fuel
round-ne-spent_example = round-ne-spent 3 two_clients one_client started

-- "hi" arrives and goes back.
abbrev hi_calls : List (Call × Reply)
hi_calls =
    (reads (pos 4) 1024, gives (104 ∷ 105 ∷ []))
    ∷ (writes (pos 4) (104 ∷ 105 ∷ []), returns (pos 2))
    ∷ []

handle_request_text_example :
    handle_request 4 two_clients (replay hi_calls) []
    ≡ (ok two_clients, writes (pos 4) (104 ∷ 105 ∷ []) ∷ reads (pos 4) 1024 ∷ [])
handle_request_text_example =
    handle_request_text 4 (104 ∷ 105 ∷ []) two_clients (replay hi_calls) [] (ground arith)
      (omega arith) (omega arith) refl

-- A client says "hi" and hangs up.
abbrev hi_connection : List (Call × Reply)
hi_connection = connection (pos 4) ((104 ∷ 105 ∷ [], pos 1024) ∷ []) true

handle_connect_lem_example :
    handle_connect 2 (pos 4) request_buffer (replay hi_connection) []
    ≡ (ok true, after hi_connection [])
handle_connect_lem_example =
    handle_connect_lem 2 (pos 4) ((104 ∷ 105 ∷ [], pos 1024) ∷ []) true (replay hi_connection) []
      ((ground arith, omega arith, omega arith), refl, tt) (omega arith)
      (replay-Answers hi_connection)

abbrev run_calls : List Call
run_calls = (main 4 2 80 one_client []).1

main-InRange_example :
    (l : ℕ) × ((one_client [] (makes_socket 2 1)).result ≡ pos l) × SelectsInRange l run_calls
unfolding main serve round accept_if accept_client requests requests_from request_at handle_request
    take_request reply_to fd_set update_maxfd max_element error_handler fill request_buffer initial
    finish close_connections open_server
main-InRange_example = main-InRange 4 2 80 one_client (pos 0) run_calls refl

main-Echoes-stopped_example : Echoes one_client run_calls × (stopped one_client run_calls ≡ true)
unfolding main serve round accept_if accept_client requests requests_from request_at handle_request
    take_request reply_to fd_set update_maxfd max_element error_handler fill request_buffer initial
    finish close_connections open_server
main-Echoes-stopped_example =
    main-Echoes-stopped one_client 4 2 80 (pos 0) run_calls one_client-GivesFresh refl

-- A client says "hi" and hangs up, and the next one stops the server.
abbrev guests_calls : List (Call × Reply)
guests_calls = Run.run_script 3 80 (pos 0) ((4, (104 ∷ 105 ∷ [], pos 1024) ∷ []) ∷ []) (5, [])

main-visits_example :
    SimpleTcp.main 2 2 80 (replay guests_calls) [] ≡ (ok (pos 0), after guests_calls [])
main-visits_example =
    Run.main-visits 2 2 3 80 (pos 0) ((4, (104 ∷ 105 ∷ [], pos 1024) ∷ []) ∷ []) (5, [])
      (replay guests_calls) [] (omega arith)
      ((tt, omega arith), ((((ground arith, omega arith, omega arith), refl, tt), omega arith), tt))
      (replay-Answers guests_calls)
