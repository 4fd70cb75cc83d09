-- ===== src/Sys/Replay.antt =====
-- Systems that answer the calls of a script one after the other.
use unix_ipc.Prelude.{
  ℕ, zero, suc, ◌≡◌, refl, subst, pos, List, [], ◌∷◌, ◌++◌, length, length-append, append_assoc,
  arith,
}
use unix_ipc.Sys.{
  Call, Reply, Os, Answers, after, returns, Outcome, ok, throws, exits, faults, out_of_fuel,
}

abbrev pub reply_at : List (Call × Reply) → ℕ → Reply
reply_at [] n = returns (pos 0)
reply_at ((c, r) ∷ script) zero = r
reply_at ((c, r) ∷ script) (suc n) = reply_at script n

abbrev pub replay : List (Call × Reply) → Os
replay script h c = reply_at script (length h)

-- The value of a run, or another one where it has none.
abbrev pub value_or : {A : Type 0} → Outcome A × List Call → A → A
value_or (ok a, h) b = a
value_or (throws e, h) b = b
value_or (exits n, h) b = b
value_or (faults e, h) b = b
value_or (out_of_fuel, h) b = b

reply_at-append :
    (past script : List (Call × Reply)) (c : Call) (r : Reply)
    → reply_at (past ++ ((c, r) ∷ script)) (length past) ≡ r
reply_at-append [] script c r = refl
reply_at-append (x ∷ past) script c r = reply_at-append past script c r

Answers-from :
    (script past : List (Call × Reply)) (h : List Call)
    → length h ≡ length past
    → Answers (replay (past ++ script)) h script
Answers-from [] past h e = tt
Answers-from ((c, r) ∷ script) past h e = (
  rw e (reply_at-append past script c r),
  subst (λ s. Answers (replay s) (c ∷ h) script) (append_assoc past ((c, r) ∷ []) script)
      (Answers-from script (past ++ (c, r) ∷ []) (c ∷ h)
        (omega (arith, e, length-append past ((c, r) ∷ [])))),
)

pub replay-Answers : (script : List (Call × Reply)) → Answers (replay script) [] script
replay-Answers script = Answers-from script [] [] refl

-- Two scripts, one after the other.
pub after-append :
    (first second : List (Call × Reply)) (h : List Call)
    → after (first ++ second) h ≡ after second (after first h)
after-append [] second h = refl
after-append ((c, r) ∷ first) second h = after-append first second (c ∷ h)

pub Answers-append :
    (first second : List (Call × Reply)) (os : Os) (h : List Call)
    → Answers os h (first ++ second)
    → Answers os h first × Answers os (after first h) second
Answers-append [] second os h a = (tt, a)
Answers-append ((c, r) ∷ first) second os h (e, a) =
    let (b, c') = Answers-append first second os (c ∷ h) a in ((e, b), c')
