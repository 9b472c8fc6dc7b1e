-- ===== src/Dp/Apply/Monad.antt =====
-- src/dp/apply.ts, what the runner's methods do one after the other: read and change the agent's
-- state, call the effects, throw and catch. The effects are callbacks that the runner is given, and
-- so a parameter: the world that they act on is a type of its own. Between any two accesses of the
-- runner to the agent, others (a new leader, an operator, another process) may have sent it
-- requests: the world says which.
use barycenter.Prelude.{ℕ, Bool, Option, none, some, List, ◌∷◌}
use barycenter.Dp.Operation.{
  Name, Plane, ApplyOperation, ActivationEvidence, PublishRecord, PublishedState, ApplyPhase,
}
use barycenter.Dp.Agent.State.{Rejection, journal_conflict, Result, ok, err, AgentState}
use barycenter.Dp.Agent.Prune.{prune}
use barycenter.Dp.Agent.Checks.{Violation, assert_invariants}
use barycenter.Dp.Agent.Requests.{Request, handle, run}

pub record PreflightResult : Type 0 where
  pub passed : Bool
  pub reason : Option Name
  pub config_test_errored : Option Bool

-- What comes of a call of an effect: its value, a rejection that it throws (a lease that is no more
-- valid is one), no answer within the budget, or another error.
pub data Effect (A : Type 0) : Type 0 where
  answered : A → Effect A
  refused : Rejection → Effect A
  too_late : Effect A
  broken : Effect A

-- Why an operation is closed as failed; the texts are the effects' user's, and stand as names.
pub data Reason : Type 0 where
  preflight_failed preflight_errored : Option Name → Reason
  no_plane_left blind_reload reload_unseen effect_timed_out : Reason

pub record Effects (W : Type 0) : Type 0 where
  pub preflight : ApplyOperation → W → W × Effect PreflightResult
  pub publish : PublishRecord → W → W × Effect (Unit {0})
  pub observe_published : W → W × Effect PublishedState
  pub signal_reload : W → W × Effect (Unit {0})
  pub observe_activation : W → W × Effect (Option ActivationEvidence)
  pub stage_membership : Option (Name → Plane → W → W × Effect (Unit {0}))
  pub others : W → W × List Request
  pub text_of : Reason → Name
  pub poll_attempts : ℕ

pub data EffectCall : Type 0 where
  published_call : PublishRecord → EffectCall
  reload_call : ApplyOperation → EffectCall

-- A call of an effect that changes what is served, and the agent's state that it was made in.
pub record LoggedCall : Type 0 where
  pub what : EffectCall
  pub seen_by : AgentState

-- The runner: the agent's state, the world, the phases written so far and the logged calls, the
-- newest first.
pub record Runner (W : Type 0) : Type 0 where
  pub agent : AgentState
  pub world : W
  pub history : List ApplyPhase
  pub calls : List LoggedCall

pub data Thrown : Type 0 where
  rejection : Rejection → Thrown
  violation : Violation → Thrown
  timed_out error cycle : Thrown

pub data Outcome (A : Type 0) : Type 0 where
  done : A → Outcome A
  thrown : Thrown → Outcome A

abbrev pub Run : Type 0 → Type 0 → Type 0
Run W A = Runner W → Runner W × Outcome A

abbrev pub and_then : {W A B : Type 0} → (A → Run W B) → Runner W × Outcome A → Runner W × Outcome B
and_then f (s, done a) = f a s
and_then f (s, thrown e) = (s, thrown e)

infixl 5 ◌>>=◌ ◌>>◌
unfoldable pub ◌>>=◌ : {W A B : Type 0} → Run W A → (A → Run W B) → Run W B
(m >>= f) s = and_then f (m s)

unfoldable pub ◌>>◌ : {W B : Type 0} → Run W (Unit {0}) → Run W B → Run W B
(m >> k) s = and_then (λ _. k) (m s)

unfoldable pub pure : {W A : Type 0} → A → Run W A
pure a s = (s, done a)

unfoldable pub throw : {W A : Type 0} → Thrown → Run W A
throw e s = (s, thrown e)

abbrev pub catch_after :
    {W A : Type 0} → (Thrown → Run W A) → Runner W × Outcome A → Runner W × Outcome A
catch_after h (s, done a) = (s, done a)
catch_after h (s, thrown e) = h e s

-- `try { m } catch (e) { h e }`.
unfoldable pub try : {W A : Type 0} → Run W A → (Thrown → Run W A) → Run W A
try m h s = catch_after h (m s)

unfoldable pub lift : {W A : Type 0} → Result A → Run W A
lift (ok a) = pure a
lift (err e) = throw (rejection e)

unfoldable pub from_effect : {W A : Type 0} → Effect A → Run W A
from_effect (answered a) = pure a
from_effect (refused e) = throw (rejection e)
from_effect too_late = throw timed_out
from_effect broken = throw error

module _ {W : Type 0} (fx : Effects W) where
  -- `budget`: an effect that does not answer in time is a thrown `EffectTimeout`.
  unfoldable pub budget : {A : Type 0} → (W → W × Effect A) → Run W A
  budget effect s = let (w, answer) = effect s.world in from_effect answer (record s { world = w })

  -- The requests of others that have come in by now.
  unfoldable pub meet_others : Runner W → Runner W
  meet_others s = let (w, rs) = fx.others s.world in record s { world = w; agent = run s.agent rs }

  -- A read of the agent.
  unfoldable pub read : {A : Type 0} → (AgentState → A) → Run W A
  read f s = let s' = meet_others s in (s', done (f s'.agent))

  abbrev save_checked : Runner W → AgentState → Option Violation → Runner W × Outcome (Unit {0})
  save_checked s t none = (record s { agent = t }, done tt)
  save_checked s t (some v) = (s, thrown (violation v))

  abbrev settle : Runner W → Result AgentState → Runner W × Outcome (Unit {0})
  settle s (ok t) = save_checked s (prune t) (assert_invariants (some s.agent) (prune t))
  settle s (err e) = (s, thrown (rejection e))

  -- A call of one of the agent's methods that change its state; their answers are unused here.
  unfoldable pub call : Request → Run W (Unit {0})
  call r s = let s' = meet_others s in settle s' (handle s'.agent r)

  abbrev pub unless_conflict : Thrown → Run W (Unit {0})
  unless_conflict (rejection journal_conflict) = pure tt
  unless_conflict e = throw e

  unfoldable pub ignore_conflict : Run W (Unit {0}) → Run W (Unit {0})
  ignore_conflict m = try m unless_conflict

  abbrev pub unless_rejection : Thrown → Run W (Unit {0})
  unless_rejection (rejection e) = pure tt
  unless_rejection e = throw e

  unfoldable pub ignore_rejection : Run W (Unit {0}) → Run W (Unit {0})
  ignore_rejection m = try m unless_rejection

  -- A call of an effect that changes what is served: it is logged as it is made.
  unfoldable pub logged : {A : Type 0} → EffectCall → (W → W × Effect A) → Run W A
  logged c effect s =
      budget effect (record s { calls = record { what = c; seen_by = s.agent } ∷ s.calls })

  abbrev pub call_publish : PublishRecord → Run W (Unit {0})
  call_publish r = logged (published_call r) (fx.publish r)

  abbrev pub call_reload : ApplyOperation → Run W (Unit {0})
  call_reload op = logged (reload_call op) fx.signal_reload
