-- ===== src/Servers/SimpleTcp/Connect.antt =====
-- What the simple server does for one client, from its first byte to its last.
use unix_ipc.Prelude.{
  not-ltb-zero, ℕ, zero, suc, ◌≡◌, ◌<◌, ◌-◌, ◌^◌, refl, ap, ◌∙◌, Bool, true, false, some, Bytes, ℤ,
  pos, negsuc, List, [], ◌∷◌, length, ◌==◌, arith, drop, drop_all, take, take_all, replicate,
  length-replicate, length-append, length-drop, store_at, store_at-append, NoNul, bytes_eq,
  append-nil, to_size,
}
use unix_ipc.Sys.{Call, Os, Reply, ok, out_of_fuel, reads, writes, gives, returns, Answers, after}
use unix_ipc.Engine.IoOperations.{read_from, write_to, clear_buffer}
use unix_ipc.Servers.Request.{request_buffer, length-request_buffer, stop, padded, c_string-padded}
use unix_ipc.Servers.SimpleTcp.{handle_connect}

-- A text of 1 to 1023 bytes without a NUL.
abbrev pub IsText : Bytes → Type 0
IsText text = NoNul text × (0 < length text) × (length text < 1024)

-- Texts that do not stop the server.
abbrev pub IsTalk : List (Bytes × ℤ) → Type 0
IsTalk [] = Unit {0}
IsTalk ((text, z) ∷ talk) = IsText text × (bytes_eq text stop ≡ false) × IsTalk talk

-- What ends a connection: the client hangs up, or it stops the server.
abbrev pub ending : Bool → Reply
ending true = returns (pos 0)
ending false = gives stop

-- A connection: each text is answered by a buffer that begins with it, whatever `write` returns.
abbrev pub connection : ℤ → List (Bytes × ℤ) → Bool → List (Call × Reply)
connection fd [] goes_on = (reads fd 1024, ending goes_on) ∷ []
connection fd ((text, z) ∷ talk) goes_on =
    (reads fd 1024, gives text) ∷ (writes fd (padded text), returns z) ∷ connection fd talk goes_on

pub stored :
    (text : Bytes)
    → length text < 1024
    → store_at request_buffer 0 (take 1024 text) ≡ some (padded text)
stored text l =
    rw (take_all {A = ℕ} 1024 text (omega (arith, l)))
      (store_at-append 0 [] request_buffer text refl (omega (arith, l, length-request_buffer)))

pub length-padded : (text : Bytes) → length text < 1024 → length (padded text) ≡ 1024
length-padded text l = omega (
  arith,
  l,
  length-append text (drop (length text) request_buffer),
  length-drop (length text) request_buffer,
  length-request_buffer,
)

zeros-stored :
    (n : ℕ) (bytes : Bytes)
    → length bytes ≡ n
    → store_at bytes 0 (replicate n 0) ≡ some (replicate n 0)
zeros-stored n bytes l =
    store_at-append 0 [] bytes (replicate n 0) refl (omega (arith, l, length-replicate {A = ℕ} n 0))
    ∙ ap some (
        rw
          (
            length-replicate {A = ℕ} n 0,
            drop_all n bytes (omega (arith, l)),
            append-nil {A = ℕ} (replicate n 0),
          )
          refl)

cleared :
    (bytes : Bytes)
    → length bytes ≡ 1024
    → store_at bytes 0 (replicate 1024 0) ≡ some request_buffer
unfolding request_buffer
cleared bytes l = zeros-stored 1024 bytes l

read_text :
    (fd : ℤ) (text : Bytes) (os : Os) (h : List Call)
    → length text < 1024
    → os h (reads fd 1024) ≡ gives text
    → read_from fd request_buffer 1024 os h ≡ (ok (length text, padded text), reads fd 1024 ∷ h)
unfolding read_from
read_text fd text os h l e = rw (e, stored text l, not-ltb-zero (length text)) refl

write_text :
    (fd : ℤ) (bytes : Bytes) (os : Os) (h : List Call)
    → write_to fd bytes os h ≡ (ok (to_size (os h (writes fd bytes)).result), writes fd bytes ∷ h)
unfolding write_to
write_text fd bytes os h = rw (not-ltb-zero (to_size (os h (writes fd bytes)).result)) refl

take_text :
    (fuel : ℕ) (fd : ℤ) (text : Bytes) (os : Os) (h : List Call)
    → IsText text
    → bytes_eq text stop ≡ false
    → os h (reads fd 1024) ≡ gives text
    → handle_connect (suc fuel) fd request_buffer os h
      ≡ handle_connect fuel fd request_buffer os (writes fd (padded text) ∷ reads fd 1024 ∷ h)
unfolding handle_connect clear_buffer
take_text fuel fd text os h t n e =
    let z : (length text == 0) ≡ false = ground (arith, t.1) in
    let r = read_text fd text os h t.2 e in
    let c = c_string-padded text t.0 t.2 in
    let k = write_text fd (padded text) os (reads fd 1024 ∷ h) in
    let m = cleared (padded text) (length-padded text t.2) in rw (r, z, c, n, k, m) refl

take_ending :
    (fuel : ℕ) (fd : ℤ) (goes_on : Bool) (os : Os) (h : List Call)
    → os h (reads fd 1024) ≡ ending goes_on
    → handle_connect (suc fuel) fd request_buffer os h ≡ (ok goes_on, reads fd 1024 ∷ h)
unfolding handle_connect
take_ending fuel fd true os h e = rw (read_text fd [] os h (omega arith) e) refl
take_ending fuel fd false os h e =
    let t : IsText stop = ground arith in
    rw (read_text fd stop os h t.2 e, c_string-padded stop t.0 t.2) refl

-- A client that sends texts of 1 to 1023 bytes without a NUL gets, for each, the whole buffer of
-- 1024 bytes that begins with it, until it hangs up or sends "stop", which ends the server; one
-- more read than there are texts is enough.
pub handle_connect_lem :
    (fuel : ℕ) (fd : ℤ) (talk : List (Bytes × ℤ)) (goes_on : Bool) (os : Os) (h : List Call)
    → IsTalk talk
    → length talk < fuel
    → Answers os h (connection fd talk goes_on)
    → handle_connect fuel fd request_buffer os h
      ≡ (ok goes_on, after (connection fd talk goes_on) h)
handle_connect_lem zero fd talk goes_on os h t l a = absurd (omega (arith, l))
handle_connect_lem (suc fuel) fd [] goes_on os h t l a = take_ending fuel fd goes_on os h a.0
handle_connect_lem (suc fuel) fd ((text, z) ∷ talk) goes_on os h (t, n, ts) l (e, (w, a)) =
    take_text fuel fd text os h t n e
    ∙ handle_connect_lem fuel fd talk goes_on os (writes fd (padded text) ∷ reads fd 1024 ∷ h) ts
        (omega (arith, l)) a

read_failure :
    (fd : ℤ) (os : Os) (h : List Call)
    → os h (reads fd 1024) ≡ returns (negsuc 0)
    → read_from fd request_buffer 1024 os h ≡ (ok (2 ^ 64 - 1, request_buffer), reads fd 1024 ∷ h)
unfolding read_from
read_failure fd os h e = rw (e, stored [] (omega arith)) refl

-- While `read` fails with -1 the simple TCP server never leaves the client, whatever fuel is given.
pub handle_connect_failing :
    (fuel : ℕ) (fd : ℤ) (os : Os) (h : List Call)
    → ((g : List Call) → os g (reads fd 1024) ≡ returns (negsuc 0))
    → (handle_connect fuel fd request_buffer os h).0 ≡ out_of_fuel
unfolding handle_connect clear_buffer
handle_connect_failing zero fd os h f = refl
handle_connect_failing (suc fuel) fd os h f =
    let r = read_failure fd os h (f h) in
    let k = write_text fd (padded []) os (reads fd 1024 ∷ h) in
    let m = cleared (padded []) (length-padded [] (omega arith)) in
    rw (r, c_string-padded [] tt (omega arith), k, m)
      (handle_connect_failing fuel fd os (writes fd (padded []) ∷ reads fd 1024 ∷ h) f)
