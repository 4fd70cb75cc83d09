-- ===== src/Sys/Laws.antt =====
-- The laws of the monad of programs.
use unix_ipc.Prelude.{◌≡◌, refl, List}
use unix_ipc.Sys.{Call, Os, Outcome, ok, throws, exits, faults, out_of_fuel, Prog, resume, ◌>>=◌}

resume_assoc :
    {A B C : Type 0} (r : Outcome A × List Call) (f : A → Prog B) (k : B → Prog C) (os : Os)
    → resume (resume r.0 f os r.1).0 k os (resume r.0 f os r.1).1
      ≡ resume r.0 (λ a. f a >>= k) os r.1
resume_assoc (ok a, g) f k os = refl
resume_assoc (throws e, g) f k os = refl
resume_assoc (exits n, g) f k os = refl
resume_assoc (faults e, g) f k os = refl
resume_assoc (out_of_fuel, g) f k os = refl

pub >>=_assoc :
    {A B C : Type 0} (m : Prog A) (f : A → Prog B) (k : B → Prog C) (os : Os) (h : List Call)
    → (m >>= f >>= k) os h ≡ (m >>= λ a. f a >>= k) os h
>>=_assoc m f k os h = resume_assoc (m os h) f k os

resume_cong :
    {A B : Type 0} (r : Outcome A × List Call) (f k : A → Prog B) (os : Os)
    → ((a : A) (g : List Call) → f a os g ≡ k a os g)
    → resume r.0 f os r.1 ≡ resume r.0 k os r.1
resume_cong (ok a, g) f k os e = e a g
resume_cong (throws x, g) f k os e = refl
resume_cong (exits n, g) f k os e = refl
resume_cong (faults x, g) f k os e = refl
resume_cong (out_of_fuel, g) f k os e = refl

-- Programs that go on in the same way.
pub >>=_cong :
    {A B : Type 0} (m : Prog A) (f k : A → Prog B) (os : Os) (h : List Call)
    → ((a : A) (g : List Call) → f a os g ≡ k a os g)
    → (m >>= f) os h ≡ (m >>= k) os h
>>=_cong m f k os h = resume_cong (m os h) f k os
