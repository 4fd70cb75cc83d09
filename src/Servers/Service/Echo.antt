-- ===== src/Servers/Service/Echo.antt =====
-- What a client sees of the service: what was written to it, and what it had sent.
use unix_ipc.Prelude.{
  ℕ, ◌≡◌, inl, inr, refl, ap, subst, Bool, true, false, false≢true, not, ◌||◌, Option, none, some,
  Bytes, pos, List, [], ◌∷◌, ◌==◌, if◌then◌else◌, bytes_eq,
}
use unix_ipc.Sys.{Call, Os, Prog, reads, writes}
use unix_ipc.Sys.Ensures.{partial, Ensures, map-Ensures}
use unix_ipc.Servers.Request.{stop}
use unix_ipc.Servers.Service.{
  Service, Event, waits, joins, echoes, leaves, stops, heard, IsWait, Happens, Serves,
}
use unix_ipc.Servers.Service.Refinement.{Views, Refined, Provides}

-- The texts written to a descriptor, the newest first.
abbrev pub written : ℕ → List Call → List Bytes
written fd [] = []
written fd (writes (pos n) text ∷ h) = if n == fd then text ∷ written fd h else written fd h
written fd (_ ∷ h) = written fd h

abbrev pub is_stop : Option Bytes → Bool
is_stop none = false
is_stop (some text) = bytes_eq text stop

abbrev pub kept : Option Bytes → List Bytes → List Bytes
kept none ts = ts
kept (some text) ts = if bytes_eq text stop then ts else text ∷ ts

-- The texts that were read from a descriptor, without the text that stops the server.
abbrev pub sent : Os → ℕ → List Call → List Bytes
sent os fd [] = []
sent os fd (reads (pos n) size ∷ h) =
    if n == fd then kept (heard (os h (reads (pos n) size))) (sent os fd h) else sent os fd h
sent os fd (_ ∷ h) = sent os fd h

-- Whether a client asked the server to stop.
abbrev pub stopped : Os → List Call → Bool
stopped os [] = false
stopped os (reads (pos n) size ∷ h) = is_stop (heard (os h (reads (pos n) size))) || stopped os h
stopped os (_ ∷ h) = stopped os h

-- Every descriptor was written exactly the texts read from it, in their order.
abbrev pub Echoes : Os → List Call → Type 0
Echoes os h = (fd : ℕ) → written fd h ≡ sent os fd h

-- This, and the service runs until a client stops it.
abbrev pub Faithful : Os → Bool → List Call → Type 0
Faithful os b h = Echoes os h × (b ≡ not (stopped os h))

pub not-eq-false : (b : Bool) → false ≡ not b → b ≡ true
not-eq-false true e = refl
not-eq-false false e = absurd (false≢true e)

same : (b : Bool) {xs ys : List Bytes} → xs ≡ ys → xs ≡ (if b then ys else ys)
same true e = e
same false e = e

if_lem :
    (b : Bool) (text : Bytes) {xs ys : List Bytes}
    → xs ≡ ys
    → (if b then text ∷ xs else xs) ≡ (if b then text ∷ ys else ys)
if_lem true text e = ap (◌∷◌ text) e
if_lem false text e = e

module _ (os : Os) (listenfd : ℕ) where
  wait-Faithful :
      (c : Call) (b : Bool) (h : List Call) → IsWait c → Faithful os b h → Faithful os b (c ∷ h)
  wait-Faithful c b h (inl (fds, e)) f = rw e f
  wait-Faithful c b h (inr (n, fds, e)) f = rw e f

  Happens-Faithful :
      (e : Event) (a b : Service) (h g : List Call)
      → Happens os listenfd e a h b g
      → Faithful os a.is_running h
      → Faithful os b.is_running g
  Happens-Faithful waits a b h g (i, (c, w, q), e) f =
      rw (q, e) (wait-Faithful c a.is_running h w f)
  Happens-Faithful (joins fd) a b h g (i, (r, q), e) f = rw (q, e) f
  Happens-Faithful (echoes fd text) a b h g (i, (t, n, q), e) f =
      rw (q, e) (λ x. rw (t, n) (if_lem (fd == x) text (f.0 x)), rw (t, n) f.1)
  Happens-Faithful (leaves fd) a b h g (i, (t, q), e) f =
      rw (q, e) (λ x. rw t (same (fd == x) (f.0 x)), rw t f.1)
  Happens-Faithful (stops fd) a b h g (i, (text, t, y, q), e) f =
      rw (q, e) (λ x. rw (t, y) (same (fd == x) (f.0 x)), rw (t, y) refl)

  Serves-Faithful :
      (es : List Event) (a b : Service) (h g : List Call)
      → Serves os listenfd es a h b g
      → Faithful os a.is_running h
      → Faithful os b.is_running g
  Serves-Faithful [] a b h g (p, q) f = rw (p, q) f
  Serves-Faithful (e ∷ es) a b h g (c, k, d, s) f =
      Serves-Faithful es c b k g s (Happens-Faithful e a c h k d f)

  module _ {S : Type 0} (v : Views S) (serve : ℕ → S → Prog S)
      (server : Provides os listenfd S v serve) where
    -- Whatever provides the service sends its clients what they sent, and stops for a client.
    pub serve-Faithful :
        (fuel : ℕ) (s : S) (h : List Call)
        → v.Holds s h
        → Faithful os (Service.is_running (v.view s)) h
        → Ensures partial (serve fuel s) os h (λ u g. v.Holds u g × Faithful os false g)
    serve-Faithful fuel s h i f =
        map-Ensures partial (serve fuel s os h)
          (λ u g. Refined os listenfd v s h u g × (Service.is_running (v.view u) ≡ false))
          (λ u g. v.Holds u g × Faithful os false g) (server.refines fuel s h i)
          (λ u g (r, n). (
            r.0,
            subst (λ b. Faithful os b g) n
                (Serves-Faithful r.1.0 (v.view s) (v.view u) h g r.1.1 f),
          ))
