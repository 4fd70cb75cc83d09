-- ===== src/Servers/Poll.antt =====
-- socket/servers/multiplex_server_use_poll/main.cpp, a server over `poll`. The globals are a
-- record; what is printed of a connection is left out. The `revents` of a new entry is not set
-- before the next `poll`.
pub mod Rules
pub mod Watching
pub mod Requests
pub mod Rounds
pub mod Serving
pub mod Answering
pub mod Shutdown
pub mod Accepting
pub mod Agreement
mod Tests
use unix_ipc.Prelude.{
  ℕ, zero, suc, ◌+◌, Bool, true, false, Option, none, some, Bytes, ℤ, pos, negsuc, List, [], ◌∷◌,
  ◌++◌, map, length, get_elem?, ltb, ◌==◌, if◌then◌else◌, fill, c_string, bytes_eq,
}
use unix_ipc.Sys.{
  reads, writes, closes, polls, accepts, out_of_bounds, no_terminator, uninitialised, Prog, Reply,
  pure, exit, or_fault, spent, skip, call, call_, result_of, ◌>>=◌, ◌>>◌,
}
use unix_ipc.Engine.Tcp.Multiplex.{pollrdnorm}
use unix_ipc.Servers.Request.{error_handler, request_buffer, stop, has, open_server}

-- `struct pollfd`
pub record Entry : Type 0 where
  pub fd : ℕ
  pub events : ℕ
  pub revents : Option ℕ

pub record State : Type 0 where
  pub clients : List Entry
  pub is_running : Bool

abbrev pub new_entry : ℕ → Entry
new_entry fd = record { fd = fd; events = pollrdnorm; revents = none }

abbrev pub fds : List Entry → List ℕ
fds = map (λ e. e.fd)

-- `poll` sets the `revents` of every entry.
unfoldable pub polled : List Entry → List ℕ → List Entry
polled [] rs = []
polled (e ∷ es) [] = record e { revents = some 0 } ∷ polled es []
polled (e ∷ es) (r ∷ rs) = record e { revents = some r } ∷ polled es rs

-- `entry.revents == POLLRDNORM`
unfoldable pub is_ready : Entry → Prog Bool
is_ready e = do revents ← or_fault e.revents uninitialised; pure (revents == pollrdnorm)

-- `clients.erase(std::find_if(...))`
unfoldable pub erase : ℕ → List Entry → List Entry
erase fd [] = []
erase fd (e ∷ es) = if e.fd == fd then es else e ∷ erase fd es

-- The branch `n == 0` of `handleRequest`.
unfoldable pub hang_up : ℕ → State → Prog State
hang_up sockfd s =
    if has sockfd (fds s.clients)
    then (do call_ (closes (pos sockfd)); pure (record s { clients = erase sockfd s.clients }))
    else exit (negsuc 0)

-- What follows it.
unfoldable pub reply_to : ℕ → Bytes → State → Prog State
reply_to sockfd text s =
    if bytes_eq text stop
    then pure (record s { is_running = false })
    else (do n ← result_of (writes (pos sockfd) text); _ ← error_handler n; pure s)

-- `handleRequest` once `n` bytes were read into `buff`.
unfoldable pub take_request : ℕ → ℕ → Bytes → State → Prog State
unfolding hang_up reply_to
take_request sockfd n buff s =
    if n == 0
    then hang_up sockfd s
    else (do text ← or_fault (c_string buff) no_terminator; reply_to sockfd text s)

unfoldable pub handle_request : ℕ → State → Prog State
unfolding take_request
handle_request sockfd s = do
  r ← call (reads (pos sockfd) 1024)
  n ← error_handler r.result
  take_request sockfd n (fill request_buffer r.bytes) s

-- One round of the loop over `clients`.
unfoldable pub request_at : Entry → State → Prog State
unfolding is_ready handle_request
request_at e s = do ready ← is_ready e; if ready then handle_request e.fd s else pure s

-- The rounds of the loop over `clients` from index `i` on.
unfoldable pub requests_from : ℕ → ℕ → State → Prog State
unfolding request_at
requests_from zero i s = spent
requests_from (suc fuel) i s =
    let rest = (do
      e ← or_fault (get_elem? s.clients i) out_of_bounds
      s' ← request_at e s
      requests_from fuel (i + 1) s') in
    if ltb i (length s.clients) then rest else pure s

unfoldable pub requests : State → Prog State
unfolding requests_from
requests s = requests_from (suc (length s.clients)) 1 s

unfoldable pub accept_client : ℕ → State → Prog State
accept_client listenfd s = do
  result ← result_of (accepts (pos listenfd))
  connfd ← error_handler result
  pure (record s { clients = s.clients ++ new_entry connfd ∷ [] })

-- A round of the loop of `main`, once `poll` has returned.
unfoldable pub after_poll : ℕ → ℕ → State → Prog State
unfolding accept_client requests is_ready
after_poll listenfd nready s = do
  listening ← or_fault (get_elem? s.clients 0) out_of_bounds
  ready ← is_ready listening
  let both = (do u ← accept_client listenfd s; if ltb nready 2 then pure u else requests u)
  if ready then both else requests s

unfoldable pub round : ℕ → State → Prog State
unfolding after_poll
round listenfd s = do
  r ← call (polls (map pos (fds s.clients)))
  nready ← error_handler r.result
  after_poll listenfd nready (record s { clients = polled s.clients r.revents })

unfoldable pub serve : ℕ → ℕ → State → Prog State
unfolding round
serve zero listenfd s = spent
serve (suc fuel) listenfd s =
    let rest = (do s' ← round listenfd s; serve fuel listenfd s') in
    if s.is_running then rest else pure s

-- `CloseOpeningFileDescriptors`
unfoldable pub close_all : List Entry → Prog (Unit {0})
close_all [] = skip
close_all (e ∷ es) = do
  result ← result_of (closes (pos e.fd))
  _ ← error_handler result
  close_all es

-- The state when the loop begins.
unfoldable pub initial : ℕ → State
initial listenfd = record { clients = new_entry listenfd ∷ []; is_running = true }

-- `main`, with `port` the value of `std::stoi(argv[1])`.
unfoldable pub main : ℕ → ℕ → ℕ → Prog ℤ
unfolding serve close_all initial
main fuel argc port =
    if argc == 2
    then (do
      listenfd ← open_server port
      s ← serve fuel listenfd (initial listenfd)
      close_all s.clients
      pure (pos 0))
    else exit (negsuc 0)
