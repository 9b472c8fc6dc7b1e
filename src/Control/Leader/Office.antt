-- ===== src/Control/Leader/Office.antt =====
-- What an instance may say of its leadership, whatever happens to it.
use barycenter.Prelude.{
  ℕ, ◌≡◌, ◌≢◌, inl, inr, Option-cases, refl, sym, ◌∙◌, arith, true, false, some, List, ◌∷◌,
}
use barycenter.Control.Leader.{
  LeaderSession, Loss, LeaderAttempt, refused, granted, LeaderElection, fresh, holds, try_acquire,
  on_lost, answer, state, leads, assert_leader, step_down, Happens, answered, loses, begins_release,
  ends_release, IsQuiet, refusal, loss, releasing, release_over, Reaches, stays, goes, Quietly,
  at_rest, moves,
}

-- The token kept is the session's.
record IsConsistent (s : LeaderElection) : Type 0 where
  pub same : (x : LeaderSession) (n : ℕ) → s.session ≡ some x → s.token ≡ some n → x.token ≡ n

on_lost-session : (l : Loss) (s : LeaderElection) → (on_lost l s).session ≡ s.session
on_lost-session l s = ground arith

on_lost-token : (l : Loss) (s : LeaderElection) → (on_lost l s).token ≡ s.token
on_lost-token l s = ground arith

on_lost-holds : (l : Loss) (s : LeaderElection) → holds (on_lost l s) ≡ false
on_lost-holds l s = ground arith

on_lost-IsConsistent : (l : Loss) (s : LeaderElection) → IsConsistent s → IsConsistent (on_lost l s)
on_lost-IsConsistent l s h = record {
  same = λ x n e f. h.same x n (sym (on_lost-session l s) ∙ e) (sym (on_lost-token l s) ∙ f);
}

answer-IsConsistent :
    (a : LeaderAttempt) (s : LeaderElection) → IsConsistent s → IsConsistent (answer a s).0
unfolding answer
answer-IsConsistent (refused why) s h = record { same = λ x n e f. h.same x n e f }
answer-IsConsistent (granted y early) s h = record { same = λ x n e f. ground arith }

Happens-IsConsistent : (s t : LeaderElection) → Happens s t → IsConsistent s → IsConsistent t
Happens-IsConsistent _ _ (answered a s) h = answer-IsConsistent a s h
Happens-IsConsistent _ _ (loses l s) h = on_lost-IsConsistent l s h
Happens-IsConsistent _ _ (begins_release s) h = record { same = λ x n e f. absurd (ground arith) }
Happens-IsConsistent _ _ (ends_release s) h = record { same = λ x n e f. absurd (ground arith) }

Reaches-IsConsistent : (s t : LeaderElection) → Reaches s t → IsConsistent s → IsConsistent t
Reaches-IsConsistent _ _ (stays s) h = h
Reaches-IsConsistent _ _ (goes s t u first rest) h =
    Reaches-IsConsistent t u rest (Happens-IsConsistent s t first h)

leads-holds :
    (s : LeaderElection) (n : ℕ) → assert_leader s ≡ leads n → (holds s ≡ true) × (s.token ≡ some n)
unfolding assert_leader state
leads-holds s n e = (ground arith, ground arith)

-- Whatever has happened to an instance since it started, if `assertLeader` returns a token, then it
-- has a session that was not lost, and the token is that session's.
pub assert_leader-session :
    (s : LeaderElection) (n : ℕ)
    → Reaches fresh s
    → assert_leader s ≡ leads n
    → (x : LeaderSession) × (s.session ≡ some x) × (x.token ≡ n) × (s.lost ≡ false)
assert_leader-session s n r e =
    let h = Reaches-IsConsistent fresh s r (record { same = λ x m e f. absurd (ground arith) }) in
    let (office, token) = leads-holds s n e in
    elim (Option-cases s.session) [
      | inl idle ↦ absurd (ground arith)
      | inr (x, session) ↦ (x, session, h.same x n session token, ground arith)
    ]

Happens-quiet :
    (s t : LeaderElection) (h : Happens s t) → IsQuiet s t h → holds s ≡ false → holds t ≡ false
unfolding answer
Happens-quiet _ _ _ (refusal why s) e = e
Happens-quiet _ _ _ (loss l s) e = on_lost-holds l s
Happens-quiet _ _ _ (releasing s) e = refl
Happens-quiet _ _ _ (release_over s) e = e

Quietly-holds : (s t : LeaderElection) → Quietly s t → holds s ≡ false → holds t ≡ false
Quietly-holds _ _ (at_rest s) e = e
Quietly-holds _ _ (moves s t u h quiet rest) e =
    Quietly-holds t u rest (Happens-quiet s t h quiet e)

none_leads : (t : LeaderElection) (n : ℕ) → holds t ≡ false → assert_leader t ≢ leads n
unfolding assert_leader state
none_leads t n idle e = ground arith

-- After a loss, and after a release has begun, `assertLeader` returns no token until a session is
-- granted again, whatever else happens: refusals, further losses, and the end of releases.
pub assert_leader-after_loss :
    (l : Loss) (s t u : LeaderElection) (n : ℕ)
    → Quietly (on_lost l s) t
    → Quietly (step_down s) u
    → (assert_leader t ≢ leads n) × (assert_leader u ≢ leads n)
assert_leader-after_loss l s t u n q r = (
  none_leads t n (Quietly-holds (on_lost l s) t q (on_lost-holds l s)),
  none_leads u n (Quietly-holds (step_down s) u r refl),
)

-- A session that has already been lost when it is granted, and tells so as soon as it is listened
-- to, is taken for a valid one: `assertLeader` returns its token.
pub assert_leader-early_loss :
    (x : LeaderSession) (l : Loss) (early : List Loss) (s : LeaderElection)
    → holds s ≡ false
    → assert_leader (try_acquire (granted x (l ∷ early)) s).0 ≡ leads x.token
unfolding assert_leader state try_acquire answer
assert_leader-early_loss x l early s idle = rw idle refl
