-- ===== src/Sys.antt =====
-- The calls that the programs make of the operating system, and the monad that the programs of
-- the repository are written in. The operating system is not part of the repository: it is an
-- argument, any function from the calls made so far and the present call to a reply. So the
-- state of a run is the list of its calls, newest first, and every theorem that holds for all
-- such functions holds for every scheduling of the processes on the other side.
pub mod Replay
pub mod Ensures
pub mod Laws
use unix_ipc.Prelude.{ℕ, ◌≡◌, ◌≢◌, refl, Option, none, some, Bytes, ℤ, pos, length, List, [], ◌∷◌}

pub data OpenFlag : Type 0 where
  read_only write_only non_block : OpenFlag

-- One constructor for each C library function that reaches outside the process, with the
-- arguments that the source passes. `prints` is what a program shows of received data, and
-- `allocates` a `new char[n]`: its reply holds the memory behind the block.
pub data Call : Type 0 where
  opens : Bytes → List OpenFlag → Call
  makes_fifo : Bytes → Call
  unlinks : Bytes → Call
  stats : ℤ → Call
  reads : ℤ → ℕ → Call
  writes : ℤ → Bytes → Call
  closes : ℤ → Call
  sleeps : ℕ → Call
  makes_socket : ℕ → ℕ → Call
  binds : ℤ → Bytes → Call
  connects : ℤ → Bytes → Call
  listens : ℤ → ℕ → Call
  accepts : ℤ → Call
  polls : List ℤ → Call
  selects : ℤ → List ℤ → Call
  receives : ℤ → ℕ → Call
  sends : ℤ → Bytes → Bytes → Call
  parses_address : Bytes → Call
  formats_address : Bytes → Call
  reads_word : Call
  allocates : Call
  prints : Bytes → Call

-- The value returned, the bytes put into the caller's buffer, the `revents` of `poll` and the
-- descriptors left in the set of `select`.
pub record Reply : Type 0 where
  pub result : ℤ
  pub bytes : Bytes
  pub revents : List ℕ
  pub ready : List ℤ

abbrev pub Os : Type 0
Os = List Call → Call → Reply

-- The exceptions of the source, one for each message.
pub data Error : Type 0 where
  fifo_close fifo_open fifo_create : Bytes → Error
  no_arguments stat_failed read_failed write_failed write_short file_close : Error
  make_socket_failed bind_failed connect_failed listen_failed accept_failed close_failed : Error
  bind_without_address connect_without_address connect_not_tcp listen_on_usual : Error
  accept_on_usual poll_failed bad_optional_access : Error

-- What has no defined behaviour: an access outside an array, text with no NUL in its array, an
-- iterator at the end or a null pointer that is followed, and a value that was never set; and a
-- failed `assert`.
pub data Fault : Type 0 where
  out_of_bounds no_terminator past_the_end failed_assert null_pointer uninitialised : Fault

pub data Outcome {ℓ} (A : Type ℓ) : Type ℓ where
  ok : A → Outcome A
  throws : Error → Outcome A
  exits : ℤ → Outcome A
  faults : Fault → Outcome A
  out_of_fuel : Outcome A

abbrev pub Prog : Type 0 → Type 0
Prog A = Os → List Call → Outcome A × List Call

module _ {A : Type 0} where
  abbrev pub pure : A → Prog A
  pure a os h = (ok a, h)

  abbrev pub throw : Error → Prog A
  throw e os h = (throws e, h)

  abbrev pub exit : ℤ → Prog A
  exit n os h = (exits n, h)

  abbrev pub fault : Fault → Prog A
  fault e os h = (faults e, h)

  abbrev pub spent : Prog A
  spent os h = (out_of_fuel, h)

  abbrev pub or_fault : Option A → Fault → Prog A
  or_fault none e = fault e
  or_fault (some a) e = pure a

abbrev pub resume : {A B : Type 0} → Outcome A → (A → Prog B) → Prog B
resume (ok a) f = f a
resume (throws e) f = throw e
resume (exits n) f = exit n
resume (faults e) f = fault e
resume out_of_fuel f = spent

infixl 5 ◌>>=◌ ◌>>◌
abbrev pub ◌>>=◌ : {A B : Type 0} → Prog A → (A → Prog B) → Prog B
◌>>=◌ m f os h = resume (m os h).0 f os (m os h).1

abbrev pub ◌>>◌ : {B : Type 0} → Prog (Unit {0}) → Prog B → Prog B
m >> k = m >>= λ _. k

abbrev pub skip : Prog (Unit {0})
skip = pure tt

abbrev pub call : Call → Prog Reply
call c os h = (ok (os h c), c ∷ h)

-- A call whose reply is not looked at.
abbrev pub call_ : Call → Prog (Unit {0})
call_ c = call c >>= λ _. skip

-- The result of a call, and what it put into a buffer of `n` bytes.
abbrev pub result_of : Call → Prog ℤ
result_of c = call c >>= λ r. pure r.result

resume-eq-ok :
    {A B : Type 0} (r : Outcome A × List Call) (f : A → Prog B) (os : Os) {b : B} {h' : List Call}
    → resume r.0 f os r.1 ≡ (ok b, h')
    → (a : A) × (g : List Call) × (r ≡ (ok a, g)) × (f a os g ≡ (ok b, h'))
resume-eq-ok (ok a, g) f os e = (a, g, refl, e)
resume-eq-ok (throws x, g) f os e = cc
resume-eq-ok (exits x, g) f os e = cc
resume-eq-ok (faults x, g) f os e = cc
resume-eq-ok (out_of_fuel, g) f os e = cc

-- Inversion of a successful bind.
pub >>=-eq-ok :
    {A B : Type 0} (m : Prog A) (f : A → Prog B) (os : Os) (h : List Call) {b : B} {h' : List Call}
    → (m >>= f) os h ≡ (ok b, h')
    → (a : A) × (g : List Call) × (m os h ≡ (ok a, g)) × (f a os g ≡ (ok b, h'))
>>=-eq-ok m f os h e = resume-eq-ok (m os h) f os e

resume-ne-spent :
    {A B : Type 0} (r : Outcome A × List Call) (f : A → Prog B) (os : Os)
    → r.0 ≢ out_of_fuel
    → ((a : A) (g : List Call) → r ≡ (ok a, g) → (f a os g).0 ≢ out_of_fuel)
    → (resume r.0 f os r.1).0 ≢ out_of_fuel
resume-ne-spent (ok a, g) f os n k = k a g refl
resume-ne-spent (throws x, g) f os n k = λ e. cc
resume-ne-spent (exits x, g) f os n k = λ e. cc
resume-ne-spent (faults x, g) f os n k = λ e. cc
resume-ne-spent (out_of_fuel, g) f os n k = absurd (n refl)

-- A bind runs out of fuel only in its first part or in its second.
pub >>=-ne-spent :
    {A B : Type 0} (m : Prog A) (f : A → Prog B) (os : Os) (h : List Call)
    → (m os h).0 ≢ out_of_fuel
    → ((a : A) (g : List Call) → m os h ≡ (ok a, g) → (f a os g).0 ≢ out_of_fuel)
    → ((m >>= f) os h).0 ≢ out_of_fuel
>>=-ne-spent m f os h = resume-ne-spent (m os h) f os

-- What a `pure` program returns.
pub pure-eq-ok :
    {A : Type 0} {a b : A} {h h' : List Call}
    → ◌≡◌ {A = Outcome A × List Call} (ok a, h) (ok b, h')
    → a ≡ b
pure-eq-ok e = cc

-- The operating system answers the calls of a script, made in this order, as the script says.
abbrev pub Answers : Os → List Call → List (Call × Reply) → Type 0
Answers os h [] = Unit {0}
Answers os h ((c, r) ∷ script) = (os h c ≡ r) × Answers os (c ∷ h) script

-- The history after the calls of a script.
abbrev pub after : List (Call × Reply) → List Call → List Call
after [] h = h
after ((c, r) ∷ script) h = after script (c ∷ h)

abbrev pub returns : ℤ → Reply
returns n = record { result = n; bytes = []; revents = []; ready = [] }

-- A `read` that puts these bytes into the buffer.
abbrev pub gives : Bytes → Reply
gives bs = record { result = pos (length bs); bytes = bs; revents = []; ready = [] }
