-- ===== src/Dp/Apply/Stable.antt =====
-- What every step of the runner leaves as it is holds of the whole runner: a relation between the
-- runners before and after that the accesses to the agent and the effects keep.
use barycenter.Prelude.{◌≡◌, refl, Bool, true, false, List, if◌then◌else◌}
use barycenter.Dp.Operation.{ApplyPhase}
use barycenter.Dp.Agent.State.{Result, ok, err, AgentState}
use barycenter.Dp.Agent.Requests.{Request}
use barycenter.Dp.Apply.Monad.{
  Effect, Effects, Runner, Outcome, done, thrown, Thrown, Run, and_then, ◌>>=◌, ◌>>◌, pure, throw,
  catch_after, try, lift, from_effect, answered, refused, too_late, broken, budget, read, call,
  meet_others,
}

-- A computation keeps a relation if it holds between the runner that it starts from and the one
-- that it leaves, whether it throws or not.
pub record Keeps {W A : Type 0} (R : Runner W → Runner W → Type 0) (m : Run W A) : Type 0 where
  pub kept : (s : Runner W) → R s (m s).0

-- A relation that all of the runner's primitive steps keep.
pub record IsStable {W : Type 0} (fx : Effects W) (R : Runner W → Runner W → Type 0) : Type 0 where
  pub same : (s : Runner W) → R s s
  pub follow : (s t u : Runner W) → R s t → R t u → R s u
  pub of_world : (s : Runner W) (w : W) → R s (record s { world = w })
  pub of_others : (s : Runner W) → R s (meet_others fx s)
  pub of_call : (r : Request) → Keeps R (call fx r)
  pub of_history : (s : Runner W) (h : List ApplyPhase) → R s (record s { history = h })

module _ {W : Type 0} {fx : Effects W} {R : Runner W → Runner W → Type 0}
    (stable : IsStable fx R) where
  pub Keeps-pure : {A : Type 0} (a : A) → Keeps R (pure a)
  unfolding pure
  Keeps-pure a = record { kept = stable.same }

  pub Keeps-throw : (A : Type 0) (e : Thrown) → Keeps R (throw {A = A} e)
  unfolding throw
  Keeps-throw A e = record { kept = stable.same }

  and_then_keeps :
      {A B : Type 0} (f : A → Run W B) (r : Runner W × Outcome A)
      → ((a : A) → Keeps R (f a))
      → R r.0 (and_then f r).0
  and_then_keeps f (s, done a) h = (h a).kept s
  and_then_keeps f (s, thrown e) h = stable.same s

  pub Keeps-bind :
      {A B : Type 0} {m : Run W A} {f : A → Run W B}
      → Keeps R m
      → ((a : A) → Keeps R (f a))
      → Keeps R (m >>= f)
  unfolding ◌>>=◌
  Keeps-bind {m} {f} h k = record {
    kept = λ s. stable.follow s (m s).0 (and_then f (m s)).0 (h.kept s) (and_then_keeps f (m s) k);
  }

  pub Keeps-then :
      {B : Type 0} {m : Run W (Unit {0})} {k : Run W B} → Keeps R m → Keeps R k → Keeps R (m >> k)
  unfolding ◌>>◌
  Keeps-then {m} {k} h i = record {
    kept = λ s.
        stable.follow s (m s).0 (and_then (λ _. k) (m s)).0 (h.kept s)
          (and_then_keeps (λ _. k) (m s) (λ _. i));
  }

  catch_after_keeps :
      {A : Type 0} (f : Thrown → Run W A) (r : Runner W × Outcome A)
      → ((e : Thrown) → Keeps R (f e))
      → R r.0 (catch_after f r).0
  catch_after_keeps f (s, done a) h = stable.same s
  catch_after_keeps f (s, thrown e) h = (h e).kept s

  pub Keeps-try :
      {A : Type 0} {m : Run W A} {f : Thrown → Run W A}
      → Keeps R m
      → ((e : Thrown) → Keeps R (f e))
      → Keeps R (try m f)
  unfolding try
  Keeps-try {m} {f} h k = record {
    kept = λ s.
        stable.follow s (m s).0 (catch_after f (m s)).0 (h.kept s) (catch_after_keeps f (m s) k);
  }

  pub Keeps-lift : {A : Type 0} (r : Result A) → Keeps R (lift r)
  unfolding lift pure throw
  Keeps-lift (ok a) = record { kept = stable.same }
  Keeps-lift (err e) = record { kept = stable.same }

  from_effect-Keeps : {A : Type 0} (e : Effect A) → Keeps R (from_effect e)
  unfolding from_effect
  from_effect-Keeps (answered a) = Keeps-pure a
  from_effect-Keeps (refused e) = Keeps-throw _ _
  from_effect-Keeps too_late = Keeps-throw _ _
  from_effect-Keeps broken = Keeps-throw _ _

  pub Keeps-budget : {A : Type 0} (effect : W → W × Effect A) → Keeps R (budget fx effect)
  unfolding budget
  Keeps-budget effect = record {
    kept = λ s.
        stable.follow s (record s { world = (effect s.world).0 }) _
          (stable.of_world s (effect s.world).0)
          ((from_effect-Keeps (effect s.world).1).kept (record s { world = (effect s.world).0 }));
  }

  pub Keeps-read : {A : Type 0} (f : AgentState → A) → Keeps R (read fx f)
  unfolding read
  Keeps-read f = record { kept = stable.of_others }

  pub Keeps-call : (r : Request) → Keeps R (call fx r)
  Keeps-call r = stable.of_call r

  pub Keeps-if :
      {A : Type 0} (b : Bool) {m k : Run W A}
      → (b ≡ true → Keeps R m)
      → (b ≡ false → Keeps R k)
      → Keeps R (if b then m else k)
  Keeps-if true h i = h refl
  Keeps-if false h i = i refl
