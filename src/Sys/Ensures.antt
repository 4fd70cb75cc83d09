-- ===== src/Sys/Ensures.antt =====
-- Postconditions of programs. `Ensures F m os h Q`: where `m` returns, `Q` holds of its value and
-- the history; `F` is what is known where the fuel runs out (`none`) and where something without
-- defined behaviour happens (`some e`), so what `F` takes to `⊥` does not happen.
use unix_ipc.Prelude.{
  subst, ◌≢◌, ◌≡◌, refl, Bool, true, false, Option, none, some, List, if◌then◌else◌,
}
use unix_ipc.Sys.{
  Call, Os, Outcome, ok, throws, exits, faults, out_of_fuel, Prog, or_fault, resume, Fault,
  out_of_bounds, no_terminator, past_the_end, failed_assert, null_pointer, uninitialised, ◌>>=◌,
}

abbrev pub Limits : Type 1
Limits = Option Fault → Type 0

-- Nothing is excluded.
abbrev pub partial : Limits
partial x = Unit {0}

-- The fuel is enough, and no access is outside an array.
abbrev pub inside : Limits
inside none = ⊥
inside (some out_of_bounds) = ⊥
inside (some no_terminator) = Unit {0}
inside (some past_the_end) = Unit {0}
inside (some failed_assert) = Unit {0}
inside (some null_pointer) = Unit {0}
inside (some uninitialised) = Unit {0}

-- The fuel is enough.
abbrev pub ending : Limits
ending none = ⊥
ending (some e) = Unit {0}

abbrev pub Post : {A : Type 0} → Limits → Outcome A × List Call → (A → List Call → Type 0) → Type 0
Post F (ok a, g) Q = Q a g
Post F (throws e, g) Q = Unit {0}
Post F (exits n, g) Q = Unit {0}
Post F (faults e, g) Q = F (some e)
Post F (out_of_fuel, g) Q = F none

abbrev pub Ensures :
    {A : Type 0} → Limits → Prog A → Os → List Call → (A → List Call → Type 0) → Type 0
Ensures F m os h Q = Post F (m os h) Q

resume-Post :
    {A B : Type 0} (F : Limits) (r : Outcome A × List Call) (f : A → Prog B) (os : Os)
    (Q : A → List Call → Type 0) (R : B → List Call → Type 0)
    → Post F r Q
    → ((a : A) (g : List Call) → Q a g → Ensures F (f a) os g R)
    → Post F (resume r.0 f os r.1) R
resume-Post F (ok a, g) f os Q R p k = k a g p
resume-Post F (throws e, g) f os Q R p k = tt
resume-Post F (exits n, g) f os Q R p k = tt
resume-Post F (faults e, g) f os Q R p k = p
resume-Post F (out_of_fuel, g) f os Q R p k = p

-- The rule for a bind.
pub >>=-Ensures :
    {A B : Type 0} (F : Limits) (m : Prog A) (f : A → Prog B) (os : Os) (h : List Call)
    (Q : A → List Call → Type 0) (R : B → List Call → Type 0)
    → Ensures F m os h Q
    → ((a : A) (g : List Call) → Q a g → Ensures F (f a) os g R)
    → Ensures F (m >>= f) os h R
>>=-Ensures F m f os h Q R = resume-Post F (m os h) f os Q R

-- The rule for a test, whose branches know its value.
pub if-Ensures :
    {A : Type 0} (F : Limits) (b : Bool) (m n : Prog A) (os : Os) (h : List Call)
    (Q : A → List Call → Type 0)
    → (b ≡ true → Ensures F m os h Q)
    → (b ≡ false → Ensures F n os h Q)
    → Ensures F (if b then m else n) os h Q
if-Ensures F true m n os h Q y z = y refl
if-Ensures F false m n os h Q y z = z refl

pub or_fault-Ensures :
    {A : Type 0} (F : Limits) (o : Option A) (e : Fault) (os : Os) (h : List Call)
    → (o ≡ none → F (some e))
    → Ensures F (or_fault o e) os h (λ a g. (o ≡ some a) × (g ≡ h))
or_fault-Ensures F none e os h k = k refl
or_fault-Ensures F (some a) e os h k = (refl, refl)

-- A postcondition, read off a run that returned.
pub Ensures-ok :
    {A : Type 0} (F : Limits) (r : Outcome A × List Call) (Q : A → List Call → Type 0) {a : A}
    {g : List Call}
    → Post F r Q
    → r ≡ (ok a, g)
    → Q a g
Ensures-ok F r Q p e = subst (λ r. Post F r Q) e p

-- What the limits exclude does not happen.
pub inside-excludes :
    {A : Type 0} (r : Outcome A × List Call) (Q : A → List Call → Type 0)
    → Post inside r Q
    → (r.0 ≢ out_of_fuel) × (r.0 ≢ faults out_of_bounds)
inside-excludes (ok a, g) Q p = (λ e. cc, λ e. cc)
inside-excludes (throws x, g) Q p = (λ e. cc, λ e. cc)
inside-excludes (exits n, g) Q p = (λ e. cc, λ e. cc)
inside-excludes (faults x, g) Q p = (λ e. cc, λ e. absurd (subst (λ o. Post inside (o, g) Q) e p))
inside-excludes (out_of_fuel, g) Q p = absurd p

pub ending-excludes :
    {A : Type 0} (r : Outcome A × List Call) (Q : A → List Call → Type 0)
    → Post ending r Q
    → r.0 ≢ out_of_fuel
ending-excludes (ok a, g) Q p = λ e. cc
ending-excludes (throws x, g) Q p = λ e. cc
ending-excludes (exits n, g) Q p = λ e. cc
ending-excludes (faults x, g) Q p = λ e. cc
ending-excludes (out_of_fuel, g) Q p = absurd p

pub Ensures-partial :
    {A : Type 0} (F : Limits) (r : Outcome A × List Call) (Q : A → List Call → Type 0)
    → Post F r Q
    → Post partial r Q
Ensures-partial F (ok a, g) Q p = p
Ensures-partial F (throws x, g) Q p = tt
Ensures-partial F (exits n, g) Q p = tt
Ensures-partial F (faults x, g) Q p = tt
Ensures-partial F (out_of_fuel, g) Q p = tt

-- Two postconditions of one program.
pub both-Post :
    {A : Type 0} (F : Limits) (r : Outcome A × List Call) (Q R : A → List Call → Type 0)
    → Post F r Q
    → Post partial r R
    → Post F r (λ a g. Q a g × R a g)
both-Post F (ok a, g) Q R p q = (p, q)
both-Post F (throws e, g) Q R p q = tt
both-Post F (exits n, g) Q R p q = tt
both-Post F (faults e, g) Q R p q = p
both-Post F (out_of_fuel, g) Q R p q = p

-- A weaker postcondition.
pub map-Ensures :
    {A : Type 0} (F : Limits) (r : Outcome A × List Call) (Q R : A → List Call → Type 0)
    → Post F r Q
    → ((a : A) (g : List Call) → Q a g → R a g)
    → Post F r R
map-Ensures F (ok a, g) Q R p k = k a g p
map-Ensures F (throws x, g) Q R p k = tt
map-Ensures F (exits n, g) Q R p k = tt
map-Ensures F (faults x, g) Q R p k = p
map-Ensures F (out_of_fuel, g) Q R p k = p
