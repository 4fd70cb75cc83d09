-- ===== src/Servers/Service.antt =====
-- What the servers over `select` and over `poll` are for, without their vectors and sets: a
-- service knows which descriptors it serves, in no order, and whether it runs, and goes on by
-- events.
pub mod Refinement
pub mod Echo
use mathlib.Core.Path.{fun_ext}
use unix_ipc.Prelude.{
  ℕ, ◌≡◌, ◌⊎◌, refl, sym, ap, subst, ◌∙◌, Bool, true, false, not, ◌&&◌, ◌||◌, Option, none, some,
  Bytes, ℤ, pos, negsuc, List, [], ◌∷◌, ◌++◌, ◌==◌, if◌then◌else◌, arith, fill, c_string, bytes_eq,
}
use unix_ipc.Sys.{Call, Reply, Os, reads, writes, closes, accepts, polls, selects}
use unix_ipc.Servers.Request.{has, stop, request_buffer}
use unix_ipc.Servers.Descriptors.{Distinct, has-append}
use unix_ipc.Servers.Select.{erase}
use unix_ipc.Servers.Select.Watched.{has-erase}

pub record Service : Type 0 where
  pub serves : ℕ → Bool
  pub is_running : Bool

-- The service waits; a client is connected; a text of a client is sent back to it; a client hangs
-- up; a client stops the service.
pub data Event : Type 0 where
  waits : Event
  joins : ℕ → Event
  echoes : ℕ → Bytes → Event
  leaves : ℕ → Event
  stops : ℕ → Event

abbrev pub step : Event → Service → Service
step waits a = a
step (joins fd) a = record a { serves = λ x. a.serves x || (fd == x) }
step (echoes fd text) a = a
step (leaves fd) a = record a { serves = λ x. a.serves x && not (x == fd) }
step (stops fd) a = record a { is_running = false }

-- When an event may happen. Requests that arrived with a "stop" are still answered after it.
abbrev pub Allowed : Event → Service → Type 0
Allowed waits a = a.is_running ≡ true
Allowed (joins fd) a = (a.is_running ≡ true) × (a.serves fd ≡ false)
Allowed (echoes fd text) a = a.serves fd ≡ true
Allowed (leaves fd) a = a.serves fd ≡ true
Allowed (stops fd) a = a.serves fd ≡ true

-- The text that a `read` into the cleared buffer leaves there, unless the client hung up.
abbrev pub text_in : ℤ → Bytes → Option Bytes
text_in (pos n) bytes = if n == 0 then none else c_string (fill request_buffer bytes)
text_in (negsuc n) bytes = none

abbrev pub heard : Reply → Option Bytes
heard r = text_in r.result r.bytes

abbrev pub IsWait : Call → Type 0
IsWait c = ((fds : List ℤ) × (c ≡ polls fds)) ⊎ ((n : ℤ) × (fds : List ℤ) × (c ≡ selects n fds))

module _ (os : Os) (listenfd : ℕ) where
  -- The system calls by which an event happens after the history `h`.
  abbrev pub Shows : Event → List Call → List Call → Type 0
  Shows waits h g = (c : Call) × IsWait c × (g ≡ c ∷ h)
  Shows (joins fd) h g =
      ((os h (accepts (pos listenfd))).result ≡ pos fd) × (g ≡ accepts (pos listenfd) ∷ h)
  Shows (echoes fd text) h g =
      (heard (os h (reads (pos fd) 1024)) ≡ some text)
      × (bytes_eq text stop ≡ false)
      × (g ≡ writes (pos fd) text ∷ reads (pos fd) 1024 ∷ h)
  Shows (leaves fd) h g =
      (heard (os h (reads (pos fd) 1024)) ≡ none) × (g ≡ closes (pos fd) ∷ reads (pos fd) 1024 ∷ h)
  Shows (stops fd) h g =
      (text : Bytes) × (heard (os h (reads (pos fd) 1024)) ≡ some text)
      × (bytes_eq text stop ≡ true)
      × (g ≡ reads (pos fd) 1024 ∷ h)

  -- One event, and a sequence of events.
  abbrev pub Happens : Event → Service → List Call → Service → List Call → Type 0
  Happens e a h b g = Allowed e a × Shows e h g × (b ≡ step e a)

  abbrev pub Serves : List Event → Service → List Call → Service → List Call → Type 0
  Serves [] a h b g = (b ≡ a) × (g ≡ h)
  Serves (e ∷ es) a h b g = (c : Service) × (k : List Call) × Happens e a h c k × Serves es c k b g

  pub Serves-append :
      (es fs : List Event) (a b c : Service) (h g k : List Call)
      → Serves es a h b g
      → Serves fs b g c k
      → Serves (es ++ fs) a h c k
  Serves-append [] fs a b c h g k (p, q) t =
      subst (λ x. Serves fs a x c k) q (subst (λ x. Serves fs x g c k) p t)
  Serves-append (e ∷ es) fs a b c h g k (m, j, d, s) t =
      (m, j, d, Serves-append es fs m b c j g k s t)

-- The view of a vector of descriptors, which forgets its order.
abbrev pub view_of : List ℕ → Bool → Service
view_of clients b = record { serves = λ x. has x clients; is_running = b }

serves_eq :
    {b : Bool} (f g : ℕ → Bool)
    → ((x : ℕ) → f x ≡ g x)
    → ◌≡◌ {A = Service}
        (record { serves = f; is_running = b })
        (record { serves = g; is_running = b })
serves_eq {b} f g e =
    let to_service : (ℕ → Bool) → Service = λ k. record { serves = k; is_running = b } in
    ap to_service (fun_ext e)

or_false : (a b : Bool) → (a || (b || false)) ≡ (a || b)
or_false a b = ground arith

pub view-joins :
    (fd : ℕ) (clients : List ℕ) (b : Bool)
    → view_of (clients ++ fd ∷ []) b ≡ step (joins fd) (view_of clients b)
view-joins fd clients b =
    serves_eq (λ x. has x (clients ++ fd ∷ [])) (λ x. has x clients || (fd == x))
      (λ x. has-append x clients (fd ∷ []) ∙ or_false (has x clients) (fd == x))

pub view-leaves :
    (fd : ℕ) (clients : List ℕ) (b : Bool)
    → Distinct clients
    → view_of (erase fd clients) b ≡ step (leaves fd) (view_of clients b)
view-leaves fd clients b d =
    serves_eq (λ x. has x (erase fd clients)) (λ x. has x clients && not (x == fd))
      (λ x. has-erase x fd clients d)
