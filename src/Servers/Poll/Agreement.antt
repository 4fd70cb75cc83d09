-- ===== src/Servers/Poll/Agreement.antt =====
-- The servers over `poll` and over `select`, side by side for one request.
use unix_ipc.Prelude.{
  ℤ-cases, ℕ, ◌≡◌, ◌≢◌, refl, ap, ◌∙◌, true, false, inl, inr, Bytes, pos, List, ◌∷◌, ◌==◌, arith,
  Bool-cases, Option-cases, fill, c_string, bytes_eq,
}
use unix_ipc.Sys.{Call, Os, ok, reads, writes, Prog}
use unix_ipc.Sys.Ensures.{partial, Ensures, Ensures-ok, map-Ensures}
use unix_ipc.Servers.Request.{error_handler, has, stop, request_buffer}
use unix_ipc.Servers.Select
use unix_ipc.Servers.Poll
use unix_ipc.Servers.Poll.{fds}
use unix_ipc.Servers.Poll.Watching.{entries-erase}

-- The server over `poll` has an entry for the listening descriptor and then one for each client of
-- the server over `select`, and both run or both do not.
abbrev pub Agree : ℕ → Select.State → Poll.State → Type 0
Agree l s u = (fds u.clients ≡ l ∷ s.clients) × (u.is_running ≡ s.is_running)

module _ (l fd : ℕ) (os : Os) (apart : l ≢ fd) where
  -- The other server returns too, with the same calls, and they agree again.
  abbrev Follows : Prog Poll.State → List Call → Select.State → List Call → Type 0
  Follows m h s g = (u : Poll.State) × (m os h ≡ (ok u, g)) × Agree l s u

  hang_up-Follows :
      (s : Select.State) (u : Poll.State) (h : List Call)
      → Agree l s u
      → Ensures partial (Select.hang_up fd s) os h (Follows (Poll.hang_up fd u) h)
  unfolding Select.hang_up Select.update_maxfd Poll.hang_up
  hang_up-Follows s u h (e, r) = elim (Bool-cases (has fd s.clients)) [
    | inr n ↦ rw n tt
    | inl y ↦ elim (Option-cases (Select.max_element (Select.erase fd s.clients))) [
      | inl m ↦ rw (y, m) tt
      | inr (m, k) ↦
          let listed : has fd (fds u.clients) ≡ true = ap (has fd) e ∙ ground (arith, y, apart) in
          let erased = entries-erase fd l u.clients s.clients apart e in
          rw (y, k, listed) (record u { clients = Poll.erase fd u.clients }, refl, (erased, r))
    ]
  ]

  reply_to-Follows :
      (text : Bytes) (s : Select.State) (u : Poll.State) (h : List Call)
      → Agree l s u
      → Ensures partial (Select.reply_to fd text s) os h (Follows (Poll.reply_to fd text u) h)
  unfolding Select.reply_to Poll.reply_to error_handler
  reply_to-Follows text s u h (e, r) = elim (Bool-cases (bytes_eq text stop)) [
    | inl y ↦ rw y (record u { is_running = false }, refl, (e, refl))
    | inr n ↦ elim (ℤ-cases (os h (writes (pos fd) text)).result) [
      | inl (k, z) ↦ rw (n, z) (u, rw z refl, (e, r))
      | inr (k, z) ↦ rw (n, z) tt
    ]
  ]

  take_request-Follows :
      (n : ℕ) (buff : Bytes) (s : Select.State) (u : Poll.State) (h : List Call)
      → Agree l s u
      → Ensures partial
          (Select.take_request fd n buff s)
          os
          h
          (Follows (Poll.take_request fd n buff u) h)
  unfolding Select.take_request Poll.take_request
  take_request-Follows n buff s u h a = elim (Bool-cases (n == 0)) [
    | inl y ↦ rw y (hang_up-Follows s u h a)
    | inr z ↦ elim (Option-cases (c_string buff)) [
      | inl m ↦ rw (z, m) tt
      | inr (text, k) ↦ rw (z, k) (reply_to-Follows text s u h a)
    ]
  ]

  poll_read :
      (n : ℕ) (u : Poll.State) (h : List Call)
      → (os h (reads (pos fd) 1024)).result ≡ pos n
      → Poll.handle_request fd u os h
        ≡ Poll.take_request fd n
            (fill request_buffer (os h (reads (pos fd) 1024)).bytes)
            u
            os
            (reads (pos fd) 1024 ∷ h)
  unfolding Poll.handle_request error_handler
  poll_read n u h z = rw z refl

  handle_request-Follows :
      (s : Select.State) (u : Poll.State) (h : List Call)
      → Agree l s u
      → Ensures partial (Select.handle_request fd s) os h (Follows (Poll.handle_request fd u) h)
  unfolding Select.handle_request Poll.handle_request error_handler
  handle_request-Follows s u h a =
      let c = reads (pos fd) 1024 in
      let buff = fill request_buffer (os h c).bytes in
      elim (ℤ-cases (os h c).result) [
        | inl (n, z) ↦ rw z (
            map-Ensures partial (Select.take_request fd n buff s os (c ∷ h))
              (Follows (Poll.take_request fd n buff u) (c ∷ h))
              (Follows (Poll.handle_request fd u) h) (take_request-Follows n buff s u (c ∷ h) a)
              (λ s' g (v, q, b). (v, poll_read n u h z ∙ q, b)))
        | inr (n, z) ↦ rw z tt
      ]

  -- Where the server over `poll` has an entry for the listening descriptor and then one for each
  -- client of the server over `select`, and both run or neither, a request of another descriptor
  -- that the server over `select` returns from makes the server over `poll` return after the same
  -- calls, and they correspond again.
  pub handle_request-Agree :
      (s s' : Select.State) (u : Poll.State) (h g : List Call)
      → Agree l s u
      → Select.handle_request fd s os h ≡ (ok s', g)
      → (u' : Poll.State) × (Poll.handle_request fd u os h ≡ (ok u', g)) × Agree l s' u'
  handle_request-Agree s s' u h g a e =
      Ensures-ok partial (Select.handle_request fd s os h) (Follows (Poll.handle_request fd u) h)
        (handle_request-Follows s u h a) e
