-- ===== src/Servers/Service/Refinement.antt =====
-- Programs that provide the service: how their states are seen as services, and the rules for
-- putting such programs together.
use unix_ipc.Prelude.{ℕ, ◌≡◌, refl, false, List, [], ◌∷◌, ◌++◌}
use unix_ipc.Sys.{Call, Os, Prog, ◌>>=◌}
use unix_ipc.Sys.Ensures.{partial, Ensures, >>=-Ensures, map-Ensures}
use unix_ipc.Servers.Service.{Service, Event, Happens, Serves, Serves-append}

-- How the states of a program are seen, and what holds of them.
pub record Views {ℓ} (S : Type ℓ) : Type (ℓ ⊔ 1) where
  pub view : S → Service
  pub Holds : S → List Call → Type 0

module _ (os : Os) (listenfd : ℕ) {S : Type 0} (v : Views S) where
  abbrev pub Refined : S → List Call → S → List Call → Type 0
  Refined s h u g =
      v.Holds u g × ((es : List Event) × Serves os listenfd es (v.view s) h (v.view u) g)

  -- From one state to another by one event.
  abbrev pub Does : S → List Call → S → List Call → Type 0
  Does s h u g = (e : Event) × Happens os listenfd e (v.view s) h (v.view u) g

  pub stays-Refined : (s : S) (h : List Call) → v.Holds s h → Refined s h s h
  stays-Refined s h i = (i, ([], (refl, refl)))

  pub Does-Refined : (s u : S) (h g : List Call) → v.Holds u g × Does s h u g → Refined s h u g
  Does-Refined s u h g (i, (e, d)) = (i, (e ∷ [], (v.view u, g, d, (refl, refl))))

  then-Refined :
      (s u w : S) (h g k : List Call) → Refined s h u g → Refined u g w k → Refined s h w k
  then-Refined s u w h g k (i, (es, a)) (j, (fs, b)) =
      (j, (es ++ fs, Serves-append os listenfd es fs (v.view s) (v.view u) (v.view w) h g k a b))

  -- A program that goes on from a state that is reached.
  pub after-Refined :
      (m : Prog S) (s u : S) (h g : List Call)
      → Refined s h u g
      → Ensures partial m os g (Refined u g)
      → Ensures partial m os g (Refined s h)
  after-Refined m s u h g r p =
      map-Ensures partial (m os g) (Refined u g) (Refined s h) p (λ w k. then-Refined s u w h g k r)

  pub >>=-Refined :
      (m : Prog S) (f : S → Prog S) (s : S) (h : List Call)
      → Ensures partial m os h (Refined s h)
      → ((u : S) (g : List Call) → Refined s h u g → Ensures partial (f u) os g (Refined u g))
      → Ensures partial (m >>= f) os h (Refined s h)
  >>=-Refined m f s h p k =
      >>=-Ensures partial m f os h (Refined s h) (Refined s h) p
        (λ u g r. after-Refined (f u) s u h g r (k u g r))

-- What a program over descriptors promises: any number of rounds is a run of the service, and
-- the program returns from them only when it does not run.
pub record Provides (os : Os) (listenfd : ℕ) (S : Type 0) (v : Views S) (serve : ℕ → S → Prog S)
    : Type 0 where
  pub refines :
      (fuel : ℕ) (s : S) (h : List Call)
      → v.Holds s h
      → Ensures partial
          (serve fuel s)
          os
          h
          (λ u g. Refined os listenfd v s h u g × (Service.is_running (v.view u) ≡ false))
