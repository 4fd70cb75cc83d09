-- ===== src/Servers/Descriptors.antt =====
-- Sets of descriptors as lists, and the descriptors that are open after a history of calls.
use unix_ipc.Prelude.{
  ℕ, ◌≡◌, refl, false, not, ◌&&◌, ◌||◌, ℤ, pos, negsuc, List, [], ◌∷◌, ◌++◌, ◌==◌, if◌then◌else◌,
  arith,
}
use unix_ipc.Sys.{Call, Os, accepts, makes_socket, closes}
use unix_ipc.Servers.Request.{has}

abbrev pub remove : ℕ → List ℕ → List ℕ
remove fd [] = []
remove fd (x ∷ xs) = if x == fd then remove fd xs else x ∷ remove fd xs

abbrev pub gained : ℤ → List ℕ → List ℕ
gained (pos n) fds = n ∷ fds
gained (negsuc n) fds = fds

-- `accept` and `socket` open a descriptor if they succeed, and `close` closes one.
unfoldable pub opened : Os → List Call → List ℕ
opened os [] = []
opened os (accepts l ∷ h) = gained (os h (accepts l)).result (opened os h)
opened os (makes_socket f t ∷ h) = gained (os h (makes_socket f t)).result (opened os h)
opened os (closes (pos n) ∷ h) = remove n (opened os h)
opened os (_ ∷ h) = opened os h

pub opened-accepts :
    (os : Os) (l : ℤ) (h : List Call)
    → opened os (accepts l ∷ h) ≡ gained (os h (accepts l)).result (opened os h)
unfolding opened
opened-accepts os l h = refl

-- What POSIX says of `accept`: the descriptor that it returns was not open.
abbrev pub GivesFresh : Os → Type 0
GivesFresh os =
    (h : List Call) (l : ℤ) (n : ℕ)
    → (os h (accepts l)).result ≡ pos n
    → has n (opened os h) ≡ false

abbrev pub Distinct : List ℕ → Type 0
Distinct [] = Unit {0}
Distinct (x ∷ xs) = (has x xs ≡ false) × Distinct xs

pub has-remove : (x fd : ℕ) (xs : List ℕ) → has x (remove fd xs) ≡ (has x xs && not (x == fd))
has-remove x fd [] = refl
has-remove x fd (y ∷ xs) = ground (arith, has-remove x fd xs)

pub has-append : (x : ℕ) (xs ys : List ℕ) → has x (xs ++ ys) ≡ (has x xs || has x ys)
has-append x [] ys = refl
has-append x (y ∷ xs) ys = ground (arith, has-append x xs ys)

pub append-Distinct :
    (n : ℕ) (xs : List ℕ) → has n xs ≡ false → Distinct xs → Distinct (xs ++ n ∷ [])
append-Distinct n [] e d = (refl, tt)
append-Distinct n (x ∷ xs) e d =
    (ground (arith, has-append x xs (n ∷ [])), append-Distinct n xs (ground arith) d.1)
