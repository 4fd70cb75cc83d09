-- ===== src/Servers/Select.antt =====
-- socket/servers/multiplex_server/main.cpp, a server over `select`. Descriptors that passed
-- `errorHandler` are numbers; an `fd_set` is the list of its members; the globals are a record.
pub mod Rules
pub mod Requests
pub mod Watched
pub mod Handled
pub mod Tracking
pub mod Loop
pub mod Range
pub mod Serving
use unix_ipc.Prelude.{
  ℕ, zero, suc, ◌+◌, Bool, true, false, ◌&&◌, ◌||◌, Option, none, some, Bytes, ℤ, pos, negsuc,
  is_neg, List, [], ◌∷◌, ◌++◌, map, length, get_elem?, ltb, ◌==◌, if◌then◌else◌, fill, c_string,
  bytes_eq,
}
use unix_ipc.Sys.{
  reads, writes, closes, selects, accepts, makes_socket, binds, listens, out_of_bounds,
  no_terminator, past_the_end, Prog, Reply, pure, exit, fault, or_fault, spent, skip, call, call_,
  result_of, resume, ◌>>=◌, ◌>>◌,
}
use unix_ipc.Servers.Request.{error_handler, request_buffer, stop, has, open_server}

pub record State : Type 0 where
  pub clients : List ℕ
  pub allset : List ℕ
  pub maxfd : ℕ
  pub is_running : Bool

-- The members of the set that `select` leaves.
abbrev pub to_fds : List ℤ → List ℕ
to_fds [] = []
to_fds (pos n ∷ fds) = n ∷ to_fds fds
to_fds (negsuc n ∷ fds) = to_fds fds

-- `FD_SET`, which writes outside the set from 1024 on.
unfoldable pub fd_set : ℕ → List ℕ → Prog (List ℕ)
fd_set fd set = if ltb fd 1024 then pure (fd ∷ set) else fault out_of_bounds

-- `FD_CLR`
unfoldable pub fd_clr : ℕ → List ℕ → List ℕ
fd_clr fd [] = []
fd_clr fd (x ∷ xs) = if x == fd then fd_clr fd xs else x ∷ fd_clr fd xs

abbrev pub larger : ℕ → ℕ → ℕ
larger a b = if ltb a b then b else a

-- `*std::max_element(...)`; `none` is the end of an empty range.
unfoldable pub max_element : List ℕ → Option ℕ
max_element [] = none
max_element (x ∷ xs) = elim (max_element xs) [ none ↦ some x | some m ↦ some (larger x m) ]

unfoldable pub update_maxfd : State → Prog State
update_maxfd s = do m ← or_fault (max_element s.clients) past_the_end; pure (record s { maxfd = m })

-- `clients.erase(std::find(...))`
unfoldable pub erase : ℕ → List ℕ → List ℕ
erase fd [] = []
erase fd (x ∷ xs) = if x == fd then xs else x ∷ erase fd xs

-- The branch `n == 0` of `handleRequest`.
unfoldable pub hang_up : ℕ → State → Prog State
unfolding update_maxfd
hang_up sockfd s =
    if has sockfd s.clients
    then (do
      call_ (closes (pos sockfd))
      update_maxfd (record s { clients = erase sockfd s.clients; allset = fd_clr sockfd s.allset }))
    else exit (negsuc 0)

-- What follows it: the text of the request.
unfoldable pub reply_to : ℕ → Bytes → State → Prog State
reply_to sockfd text s =
    if bytes_eq text stop
    then pure (record s { is_running = false })
    else (do n ← result_of (writes (pos sockfd) text); _ ← error_handler n; pure s)

-- `handleRequest` once `n` bytes were read into `buff`.
unfoldable pub take_request : ℕ → ℕ → Bytes → State → Prog State
unfolding hang_up reply_to
take_request sockfd n buff s =
    if n == 0
    then hang_up sockfd s
    else (do text ← or_fault (c_string buff) no_terminator; reply_to sockfd text s)

unfoldable pub handle_request : ℕ → State → Prog State
unfolding take_request
handle_request sockfd s = do
  r ← call (reads (pos sockfd) 1024)
  n ← error_handler r.result
  take_request sockfd n (fill request_buffer r.bytes) s

-- The branch for the listening descriptor, without what is printed of the connection.
unfoldable pub accept_client : ℕ → State → Prog State
unfolding update_maxfd
accept_client listenfd s = do
  result ← result_of (accepts (pos listenfd))
  connfd ← error_handler result
  set ← fd_set connfd s.allset
  update_maxfd (record s { clients = s.clients ++ connfd ∷ []; allset = set })

unfoldable pub request_at : ℕ → List ℕ → State → Prog State
request_at connfd readset s = if has connfd readset then handle_request connfd s else pure s

-- The rounds of the loop over `clients` from index `i` on; `handleRequest` may shorten the vector.
unfoldable pub requests_from : ℕ → ℕ → List ℕ → State → Prog State
unfolding request_at
requests_from zero i readset s = spent
requests_from (suc fuel) i readset s =
    let rest = (do
      connfd ← or_fault (get_elem? s.clients i) out_of_bounds
      s' ← request_at connfd readset s
      requests_from fuel (i + 1) readset s') in
    if ltb i (length s.clients) then rest else pure s

-- The two parts of a round of the loop of `main`, once `select` has returned.
unfoldable pub accept_if : ℕ → List ℕ → State → Prog State
unfolding accept_client
accept_if listenfd readset s = if has listenfd readset then accept_client listenfd s else pure s

unfoldable pub requests : List ℕ → State → Prog State
unfolding requests_from
requests readset s = requests_from (suc (length s.clients)) 0 readset s

unfoldable pub round : ℕ → State → Prog State
unfolding accept_if requests
round listenfd s = do
  r ← call (selects (pos (s.maxfd + 1)) (map pos s.allset))
  _ ← error_handler r.result
  s' ← accept_if listenfd (to_fds r.ready) s
  requests (to_fds r.ready) s'

unfoldable pub serve : ℕ → ℕ → State → Prog State
serve zero listenfd s = spent
serve (suc fuel) listenfd s =
    let rest = (do s' ← round listenfd s; serve fuel listenfd s') in
    if s.is_running then rest else pure s

-- `CloseConnections`, where a failure of `close` is only reported.
unfoldable pub close_connections : List ℕ → Prog (Unit {0})
close_connections [] = skip
close_connections (fd ∷ fds) = call_ (closes (pos fd)) >> close_connections fds

-- The state when the loop begins.
unfoldable pub initial : ℕ → Prog State
initial listenfd = do
  set ← fd_set listenfd []
  pure (record { clients = []; allset = set; maxfd = listenfd; is_running = true })

-- The end of `main`.
unfoldable pub finish : ℕ → State → Prog ℤ
unfolding close_connections
finish listenfd s = do close_connections s.clients; call_ (closes (pos listenfd)); pure (pos 0)

-- `main`, with `port` the value of `std::stoi(argv[1])`.
unfoldable pub main : ℕ → ℕ → ℕ → Prog ℤ
unfolding initial serve finish
main fuel argc port =
    if argc == 2
    then (do
      listenfd ← open_server port
      s ← initial listenfd
      s' ← serve fuel listenfd s
      finish listenfd s')
    else exit (negsuc 0)
