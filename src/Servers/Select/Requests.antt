-- ===== src/Servers/Select/Requests.antt =====
-- What a request does to the server over `select`, for each kind of request.
use unix_ipc.Prelude.{
  ℕ, ◌≡◌, ◌<◌, refl, true, false, Bytes, pos, negsuc, is_neg, List, [], ◌∷◌, length, ◌==◌,
  if◌then◌else◌, arith, fill_all, c_string-NoNul, NoNul, bytes_eq,
}
use unix_ipc.Sys.{
  Call, Os, Outcome, ok, exits, faults, reads, writes, closes, gives, no_terminator, past_the_end,
}
use unix_ipc.Servers.Request.{
  error_handler, request_buffer, length-request_buffer, c_string-fill, stop,
}
use unix_ipc.Servers.Select.{
  State, max_element, update_maxfd, erase, hang_up, reply_to, take_request, handle_request,
}

-- What is expected of a text: the server ends, or the same text goes back.
abbrev pub answered : ℕ → Bytes → State → Os → List Call → Outcome State × List Call
answered fd text s os h =
    if bytes_eq text stop then (ok (record s { is_running = false }), h) else (
      (if is_neg (os h (writes (pos fd) text)).result then exits (negsuc 0) else ok s),
      writes (pos fd) text ∷ h,
    )

reply_to_lem :
    (fd : ℕ) (text : Bytes) (s : State) (os : Os) (h : List Call)
    → reply_to fd text s os h ≡ answered fd text s os h
unfolding reply_to error_handler
reply_to_lem fd text s os h = ground arith

-- A request of 1 to 1023 bytes without a NUL ends the server over `select` if it is "stop" with its
-- line end, and else goes back unchanged in one `write`, whose failure ends the process with -1.
pub handle_request_text :
    (fd : ℕ) (text : Bytes) (s : State) (os : Os) (h : List Call)
    → NoNul text
    → 0 < length text
    → length text < 1024
    → os h (reads (pos fd) 1024) ≡ gives text
    → handle_request fd s os h ≡ answered fd text s os (reads (pos fd) 1024 ∷ h)
unfolding handle_request take_request error_handler
handle_request_text fd text s os h n p l e =
    let z : (length text == 0) ≡ false = ground (arith, p) in
    rw (e, c_string-fill text n l, z) (reply_to_lem fd text s os (reads (pos fd) 1024 ∷ h))

-- A request of 1024 bytes without a NUL is read past the end of its buffer by the server over
-- `select`.
pub handle_request_long :
    (fd : ℕ) (text : Bytes) (s : State) (os : Os) (h : List Call)
    → NoNul text
    → length text ≡ 1024
    → os h (reads (pos fd) 1024) ≡ gives text
    → handle_request fd s os h ≡ (faults no_terminator, reads (pos fd) 1024 ∷ h)
unfolding handle_request take_request error_handler
handle_request_long fd text s os h n l e =
    let z : (length text == 0) ≡ false = ground (arith, l) in
    rw (e, fill_all request_buffer text (rw length-request_buffer l), c_string-NoNul text n, z) refl

-- When the only client hangs up, its descriptor is closed and then the largest element of an empty
-- vector is followed.
pub handle_request_last :
    (fd : ℕ) (s : State) (os : Os) (h : List Call)
    → s.clients ≡ fd ∷ []
    → os h (reads (pos fd) 1024) ≡ gives []
    → handle_request fd s os h ≡ (faults past_the_end, closes (pos fd) ∷ reads (pos fd) 1024 ∷ h)
unfolding handle_request take_request hang_up update_maxfd max_element erase error_handler
handle_request_last fd s os h c e = let z : (fd == fd) ≡ true = ground arith in rw (e, c, z) refl
