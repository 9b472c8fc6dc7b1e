-- ===== src/Dp/Apply/WholePhases.antt =====
-- The runner keeps what its primitive steps keep: one round in each phase.
use barycenter.Prelude.{
  ℕ, ◌<◌, arith, leb, ltb, ◌||◌, ◌&&◌, Bool, true, false, Option, none, some, List, [], ◌∷◌,
}
use barycenter.Dp.Operation.{
  Name, Plane, PerPlane, ApplyOperation, PlaneProgress, ActivationEvidence, ApplyPhase,
}
use barycenter.Dp.Agent.State.{JournalEntry}
use barycenter.Dp.Apply.Monad.{Effect, Effects, Runner, Thrown, rejection}
use barycenter.Dp.Apply.Steps.{Observed}
use barycenter.Dp.Apply.Phases.{
  preflight_step, announce, publish_unless, publish_step, stage_membership_if, stage_failed,
  stage_one, stage_planes, published_step, commit_failed, commit_one, commit_planes, close_commits,
  commit_if_proved, observed_step, exhaust, retry_partial, partial_step, step,
}
use barycenter.Dp.Apply.Reload.{
  reload_attempt_limit, is_unread, reload_once, reload_blindly, reload_unless, reload_step,
}
use barycenter.Dp.Apply.Stable.{Keeps, IsStable, Keeps-if}
use barycenter.Dp.Apply.Whole.{
  keeps_rules, Keeps-write, Keeps-write_on, Keeps-observe_read, Keeps-await_activation,
  Keeps-assert_owner, Keeps-fail_all,
}

ruleset step_rules = (
  keeps_rules, Keeps-write, Keeps-write_on, Keeps-observe_read, Keeps-await_activation,
  Keeps-assert_owner, Keeps-fail_all,
)

module _ {W : Type 0} {fx : Effects W} {R : Runner W → Runner W → Type 0} (stable : IsStable fx R)
    (of_publish : (op : ApplyOperation) → Keeps R (announce fx op))
    (of_reload : (j : JournalEntry)
      → j.reload_attempts < reload_attempt_limit
      → Keeps R (reload_once fx j)) where
  Keeps-preflight_step : (j : JournalEntry) → Keeps R (preflight_step fx j)
  unfolding preflight_step
  Keeps-preflight_step j = search step_rules

  Keeps-publish_unless : (own : Bool) (op : ApplyOperation) → Keeps R (publish_unless fx own op)
  unfolding publish_unless
  Keeps-publish_unless true op = search step_rules
  Keeps-publish_unless false op = search (step_rules, of_publish)

  Keeps-publish_step : (j : JournalEntry) → Keeps R (publish_step fx j)
  unfolding publish_step
  Keeps-publish_step j = search (step_rules, Keeps-publish_unless)

  Keeps-stage_membership_if :
      (gen : Name) (p : Plane) (m : Option (Name → Plane → W → W × Effect (Unit {0})))
      → Keeps R (stage_membership_if fx gen p m)
  unfolding stage_membership_if
  Keeps-stage_membership_if gen p none = search step_rules
  Keeps-stage_membership_if gen p (some effect) = search step_rules

  Keeps-stage_failed : (e : Thrown) → Keeps R (stage_failed fx e)
  Keeps-stage_failed (rejection e) = search step_rules
  Keeps-stage_failed e = search step_rules

  Keeps-stage_one : (op : ApplyOperation) (p : Plane) → Keeps R (stage_one fx op p)
  unfolding stage_one
  Keeps-stage_one op p = search (step_rules, Keeps-stage_membership_if, Keeps-stage_failed)

  Keeps-stage_planes :
      (op : ApplyOperation) (ps : List Plane) (n : ℕ) (progress : PerPlane (Option PlaneProgress))
      → Keeps R (stage_planes fx op ps n progress)
  unfolding stage_planes
  Keeps-stage_planes op [] n progress = search step_rules
  Keeps-stage_planes op (p ∷ ps) n progress =
      search (step_rules, Keeps-stage_one, Keeps-stage_planes op ps)

  Keeps-published_step : (j : JournalEntry) → Keeps R (published_step fx j)
  unfolding published_step
  Keeps-published_step j = search (step_rules, Keeps-stage_planes)

  Keeps-reload_blindly : (j : JournalEntry) (o : Observed) → Keeps R (reload_blindly fx j o)
  unfolding reload_blindly
  Keeps-reload_blindly j o =
      Keeps-if stable
        (leb reload_attempt_limit j.reload_attempts || (is_unread fx o && ltb 0 j.reload_attempts))
        (λ e. search step_rules) (λ e. of_reload j (ground arith))

  Keeps-reload_unless : (j : JournalEntry) (o : Observed) → Keeps R (reload_unless fx j o)
  unfolding reload_unless
  Keeps-reload_unless j o = search (step_rules, Keeps-reload_blindly)

  Keeps-reload_step : (j : JournalEntry) → Keeps R (reload_step fx j)
  unfolding reload_step
  Keeps-reload_step j = search (step_rules, Keeps-reload_unless)

  Keeps-commit_failed : (e : Thrown) → Keeps R (commit_failed fx e)
  Keeps-commit_failed (rejection e) = search step_rules
  Keeps-commit_failed e = search step_rules

  Keeps-commit_one :
      (op : ApplyOperation) (e : ActivationEvidence) (p : Plane) → Keeps R (commit_one fx op e p)
  unfolding commit_one
  Keeps-commit_one op e p = search (step_rules, Keeps-commit_failed)

  Keeps-commit_planes :
      (op : ApplyOperation) (e : ActivationEvidence) (ps : List Plane)
      (progress : PerPlane (Option PlaneProgress))
      → Keeps R (commit_planes fx op e ps progress)
  unfolding commit_planes
  Keeps-commit_planes op e [] progress = search step_rules
  Keeps-commit_planes op e (p ∷ ps) progress =
      search (step_rules, Keeps-commit_one, Keeps-commit_planes op e ps)

  Keeps-close_commits :
      (j : JournalEntry) (e : ActivationEvidence) (progress : PerPlane (Option PlaneProgress))
      → Keeps R (close_commits fx j e progress)
  unfolding close_commits
  Keeps-close_commits j e progress = search step_rules

  Keeps-commit_if_proved :
      (j : JournalEntry) (e : Option ActivationEvidence) → Keeps R (commit_if_proved fx j e)
  unfolding commit_if_proved
  Keeps-commit_if_proved j none = search step_rules
  Keeps-commit_if_proved j (some e) = search (step_rules, Keeps-commit_planes, Keeps-close_commits)

  Keeps-observed_step : (j : JournalEntry) → Keeps R (observed_step fx j)
  unfolding observed_step
  Keeps-observed_step j = search (step_rules, Keeps-commit_if_proved)

  Keeps-exhaust : (j : JournalEntry) → Keeps R (exhaust fx j)
  unfolding exhaust
  Keeps-exhaust j = search step_rules

  Keeps-retry_partial : (j : JournalEntry) → Keeps R (retry_partial fx j)
  unfolding retry_partial
  Keeps-retry_partial j = search step_rules

  Keeps-partial_step : (j : JournalEntry) → Keeps R (partial_step fx j)
  unfolding partial_step
  Keeps-partial_step j = search (step_rules, Keeps-exhaust, Keeps-retry_partial)

  pub Keeps-step : (p : ApplyPhase) (j : JournalEntry) → Keeps R (step fx p j)
  unfolding step
  Keeps-step ApplyPhase.preflight j = search (step_rules, Keeps-preflight_step)
  Keeps-step ApplyPhase.publish_intent j = search (step_rules, Keeps-publish_step)
  Keeps-step ApplyPhase.published j = search (step_rules, Keeps-published_step)
  Keeps-step ApplyPhase.membership_staged j = search step_rules
  Keeps-step ApplyPhase.reload_intent j = search (step_rules, Keeps-reload_step)
  Keeps-step ApplyPhase.reload_observed j = search (step_rules, Keeps-observed_step)
  Keeps-step ApplyPhase.partially_activated j = search (step_rules, Keeps-partial_step)
  Keeps-step _ j = search step_rules
