-- ===== src/Servers/Poll/Tests.antt =====
-- Small runs of the server over `poll`.
use unix_ipc.Prelude.{
  ℕ, ◌≡◌, ◌≢◌, ◌≤◌, refl, false, true, ℤ, pos, negsuc, Bool-cases, inl, inr, some, List, [], ◌∷◌,
  length, ◌==◌, if◌then◌else◌, arith, fill,
}
use unix_ipc.Sys.{
  ok, writes, faults, out_of_bounds, Call, Os, out_of_fuel, reads, closes, polls, accepts,
  makes_socket, returns, gives,
}
use unix_ipc.Sys.Replay.{value_or}
use unix_ipc.Servers.Request.{has, stop, error_handler, request_buffer, open_server, server_calls}
use unix_ipc.Servers.Descriptors.{opened, GivesFresh}
use unix_ipc.Servers.Once.{once-GivesFresh}
use unix_ipc.Servers.Poll.{
  Entry, State, polled, is_ready, erase, hang_up, reply_to, take_request, handle_request,
  request_at, requests_from, requests, accept_client, after_poll, round, serve, close_all, initial,
  main,
}
use unix_ipc.Servers.Poll.Watching.{Watches}
use unix_ipc.Servers.Poll.Rounds.{round-total, serve-keeps-Watches}
use unix_ipc.Servers.Service.{Event, Serves}
use unix_ipc.Servers.Service.Echo.{Echoes, stopped}
use unix_ipc.Servers.Poll.Serving.{service}
use unix_ipc.Servers.Poll.Serving.Rounds.{serve-Serves}
use unix_ipc.Servers.Poll.Serving.Echo.{main-Echoes}
use unix_ipc.Servers.Poll.Shutdown.{main-closes}
use unix_ipc.Servers.Select
use unix_ipc.Servers.Poll.Agreement.{Agree, handle_request-Agree}
use unix_ipc.Servers.Poll.Accepting.{after_poll-uninitialised}

-- The listening socket is 3. `accept` gives 4 in the first round; the client sends "hi" in the
-- second and "stop" in the third.
abbrev one_client : Os
one_client h (makes_socket family type) = returns (pos 3)
one_client h (accepts l) = if length h == 4 then returns (pos 4) else returns (negsuc 0)
one_client h (polls fds) = record {
  result = pos 1;
  bytes = [];
  revents = if length h == 3 then 64 ∷ [] else 0 ∷ 64 ∷ [];
  ready = [];
}
one_client h (reads fd size) = if length h == 6 then gives (104 ∷ 105 ∷ []) else gives stop
one_client h c = returns (pos 0)

one_client-GivesFresh : GivesFresh one_client
one_client-GivesFresh = once-GivesFresh one_client 4 4 accepting (λ h f t e. cc)
  where
    accepting :
        (h : List Call) (l : ℤ) (n : ℕ)
        → (one_client h (accepts l)).result ≡ pos n
        → (n ≡ 4) × (length h ≡ 4)
    accepting h l n e = elim (Bool-cases (length h == 4)) [
      | inl y ↦ let e' = rw y at e in (ground arith, ground (arith, y))
      | inr f ↦ let e' = rw f at e in cc
    ]

abbrev started : List Call
started = server_calls 80 3 []

initial-Watches : Watches one_client 3 (initial 3) started
unfolding opened initial
initial-Watches = record {
  clients = [];
  entries = refl;
  open_fds = λ fd. refl;
  distinct = (refl, tt);
}

round-total_example :
    ((round 3 (initial 3) one_client started).0 ≢ out_of_fuel)
    × ((round 3 (initial 3) one_client started).0 ≢ faults out_of_bounds)
round-total_example =
    round-total one_client 3 one_client-GivesFresh (initial 3) started initial-Watches

abbrev last : State
last = value_or (serve 4 3 (initial 3) one_client started) (initial 3)

abbrev last_calls : List Call
last_calls = (serve 4 3 (initial 3) one_client started).1

serve-keeps-Watches_example : Watches one_client 3 last last_calls
unfolding serve round after_poll accept_client requests requests_from request_at is_ready polled
    handle_request take_request reply_to error_handler fill request_buffer initial
serve-keeps-Watches_example =
    serve-keeps-Watches one_client 3 one_client-GivesFresh 4 (initial 3) last started last_calls
      refl initial-Watches

abbrev run_calls : List Call
run_calls = (main 4 2 80 one_client []).1

main-closes_example : has 4 (opened one_client run_calls) ≡ false
unfolding main serve round after_poll accept_client requests requests_from request_at is_ready
    polled handle_request take_request reply_to error_handler fill request_buffer initial close_all
    open_server
main-closes_example = main-closes one_client 4 2 80 (pos 0) run_calls one_client-GivesFresh refl 4

serve-Serves_example :
    (es : List Event) × Serves one_client 3 es
      (service (initial 3))
      started
      (service last)
      last_calls
unfolding serve round after_poll accept_client requests requests_from request_at is_ready polled
    handle_request take_request reply_to error_handler fill request_buffer initial
serve-Serves_example =
    serve-Serves one_client 3 4 (initial 3) last started last_calls one_client-GivesFresh
      initial-Watches refl

main-Echoes_example : Echoes one_client run_calls × (stopped one_client run_calls ≡ true)
unfolding main serve round after_poll accept_client requests requests_from request_at is_ready
    polled handle_request take_request reply_to error_handler fill request_buffer initial close_all
    open_server
main-Echoes_example = main-Echoes one_client 4 2 80 (pos 0) run_calls one_client-GivesFresh refl

-- The client 4 hangs up in the round in which 5 is accepted.
abbrev hangs_up : Os
hangs_up h (accepts l) = returns (pos 5)
hangs_up h (reads fd size) = gives []
hangs_up h c = returns (pos 0)

abbrev listening : Entry
listening = record { fd = 3; events = 64; revents = some 64 }

abbrev client : Entry
client = record { fd = 4; events = 64; revents = some 64 }

abbrev two : State
two = record { clients = listening ∷ client ∷ []; is_running = true }

after_poll-uninitialised_example :
    length (value_or (after_poll 3 2 two hangs_up []) two).clients ≤ 2
unfolding after_poll accept_client requests requests_from request_at is_ready handle_request
    take_request hang_up erase error_handler fill request_buffer
after_poll-uninitialised_example =
    after_poll-uninitialised hangs_up 3 2 5 listening (client ∷ []) true
      (value_or (after_poll 3 2 two hangs_up []) two) []
      (closes (pos 4) ∷ reads (pos 4) 1024 ∷ accepts (pos 3) ∷ []) refl (omega arith) refl refl

-- The client 4 says "hi".
abbrev says_hi : Os
says_hi h (reads fd size) = gives (104 ∷ 105 ∷ [])
says_hi h c = returns (pos 2)

abbrev selecting : Select.State
selecting = record { clients = 4 ∷ []; allset = 4 ∷ 3 ∷ []; maxfd = 4; is_running = true }

handle_request-Agree_example :
    (u : State) × (handle_request 4 two says_hi []
      ≡ (ok u, writes (pos 4) (104 ∷ 105 ∷ []) ∷ reads (pos 4) 1024 ∷ []))
    × Agree 3 selecting u
unfolding Select.handle_request Select.take_request Select.reply_to error_handler fill
    request_buffer
handle_request-Agree_example =
    handle_request-Agree 3 4 says_hi (omega arith) selecting selecting two []
      (writes (pos 4) (104 ∷ 105 ∷ []) ∷ reads (pos 4) 1024 ∷ []) (refl, refl) refl
