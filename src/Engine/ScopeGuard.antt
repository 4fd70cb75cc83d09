-- ===== src/Engine/ScopeGuard.antt =====
-- socket/external/engine/utils/scope_guard/scope_guard.h. The value's type is a parameter, with
-- what a move leaves of a value; so is the deleter.
use unix_ipc.Prelude.{ℕ, ◌≡◌, ◌≢◌, refl, pos, List, [], ◌∷◌, arith}
use unix_ipc.Sys.{Call, Os, ok, closes, Prog, skip, call_, ◌>>◌}
use unix_ipc.Servers.Request.{has}
use unix_ipc.Servers.Descriptors.{opened, remove, has-remove}

module _ {T : Type 0} (left : T → T) (deleter : T → Prog (Unit {0})) where
  pub record Guard : Type 0 where
    pub value_ : T

  -- The constructor, which takes a value; what it leaves of the caller's value is not used.
  unfoldable pub make : T → Guard
  make value = record { value_ = value }

  -- The move constructor: the new guard, and what is left of `other`.
  unfoldable pub move : Guard → Guard × Guard
  move other = (record { value_ = other.value_ }, record { value_ = left other.value_ })

  -- The move assignment: both guards afterwards.
  unfoldable pub assign : Guard → Guard → Guard × Guard
  assign guard other =
      (record guard { value_ = other.value_ }, record { value_ = left other.value_ })

  -- `operator*` and `operator->`
  unfoldable pub get : Guard → T
  get guard = guard.value_

  -- The destructor.
  unfoldable pub destroy : Guard → Prog (Unit {0})
  destroy guard = deleter guard.value_

  -- The end of a scope: its guards die, the last one declared first.
  unfoldable pub leave_scope : List Guard → Prog (Unit {0})
  unfolding destroy
  leave_scope [] = skip
  leave_scope (guard ∷ guards) = leave_scope guards >> destroy guard

-- A guard of a descriptor, which a move copies, and whose deleter closes it.
abbrev pub close_fd : ℕ → Prog (Unit {0})
close_fd fd = call_ (closes (pos fd))

-- `{ Guard a(x), b(y); a = std::move(b); }`
abbrev pub assign_scope : ℕ → ℕ → Prog (Unit {0})
assign_scope x y =
    let guards : Guard {T = ℕ} (λ v. v) close_fd × Guard {T = ℕ} (λ v. v) close_fd =
      assign (λ v. v) close_fd (make (λ v. v) close_fd x) (make (λ v. v) close_fd y) in
    leave_scope (λ v. v) close_fd (guards.0 ∷ guards.1 ∷ [])

-- Where a guard of one descriptor is assigned by a move from a guard of another, and a move of a
-- descriptor is a copy, the end of the scope closes the second descriptor twice and the first not
-- at all.
pub assign_scope_lem :
    (x y : ℕ) (os : Os) (h : List Call)
    → x ≢ y
    → (assign_scope x y os h ≡ (ok tt, closes (pos y) ∷ closes (pos y) ∷ h))
      × (has x (opened os (assign_scope x y os h).1) ≡ has x (opened os h))
unfolding make assign leave_scope opened
assign_scope_lem x y os h n =
    (refl, ground (arith, has-remove x y (remove y (opened os h)), has-remove x y (opened os h)))
