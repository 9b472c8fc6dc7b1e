-- ===== src/Dp/Apply/Phases.antt =====
-- src/dp/apply.ts, one round of `driveLoop`, by the phase of the journal.
use barycenter.Prelude.{
  ℕ, Bool, true, false, Option, none, some, List, [], ◌∷◌, ◌+◌, leb, ◌==◌, if◌then◌else◌,
}
use barycenter.Dp.Operation.{
  Name, Plane, put, PerPlane, ApplyOperation, PlaneProgress, staged, failed, committed,
  ActivationEvidence, proves_activation, published_by_me, ApplyPhase, ApplyResult, planes_of,
}
use barycenter.Dp.Agent.State.{JournalEntry}
use barycenter.Dp.Agent.Identity.{tuple_for}
use barycenter.Dp.Agent.Journal.{length}
use barycenter.Dp.Agent.Requests.{operation_finish, intent_record, stage_plane, commit_plane}
use barycenter.Dp.Apply.Monad.{
  PreflightResult, Reason, preflight_failed, preflight_errored, no_plane_left, Effects, Thrown,
  rejection, Effect, Run, ◌>>=◌, ◌>>◌, pure, throw, try, lift, budget, read, call, call_publish,
}
use barycenter.Dp.Apply.Envelope.{
  is_empty, next, in_phase, record_of, result_of, stuck_planes, committed_planes,
}
use barycenter.Dp.Apply.Steps.{write_on, await_activation, assert_owner, fail_all}
use barycenter.Dp.Apply.Reload.{one_more, reload_step, reload_attempt_limit}

abbrev pub partial_retry_limit : ℕ
partial_retry_limit = 2

abbrev pub latest : Option JournalEntry → JournalEntry → JournalEntry
latest none j = j
latest (some now) j = now

module _ {W : Type 0} (fx : Effects W) where
  abbrev pub preflight_reason : PreflightResult → Reason
  preflight_reason check = elim check.config_test_errored [
    | some true ↦ preflight_errored check.reason
    | _ ↦ preflight_failed check.reason
  ]

  unfoldable pub preflight_step : JournalEntry → Run W (Unit {0})
  preflight_step j = budget fx (fx.preflight j.op) >>= λ check.
      assert_owner fx j.op
      >> (if check.passed
          then write_on fx (next j (in_phase ApplyPhase.publish_intent))
          else fail_all fx j (preflight_reason check))

  -- The intent is written before the publication.
  unfoldable pub announce : ApplyOperation → Run W (Unit {0})
  announce op = call fx (intent_record (record_of op)) >> call_publish fx (record_of op)

  unfoldable pub publish_unless : Bool → ApplyOperation → Run W (Unit {0})
  publish_unless true op = pure tt
  publish_unless false op = announce op

  unfoldable pub publish_step : JournalEntry → Run W (Unit {0})
  publish_step j = budget fx fx.observe_published >>= λ now.
      publish_unless (published_by_me now j.op) j.op
      >> write_on fx (next j (in_phase ApplyPhase.published))

  unfoldable pub stage_membership_if :
      Name → Plane → Option (Name → Plane → W → W × Effect (Unit {0})) → Run W (Unit {0})
  stage_membership_if gen p none = pure tt
  stage_membership_if gen p (some effect) = budget fx (effect gen p)

  abbrev pub stage_failed : Thrown → Run W PlaneProgress
  stage_failed (rejection e) = pure failed
  stage_failed e = throw e

  unfoldable pub stage_one : ApplyOperation → Plane → Run W PlaneProgress
  stage_one op p =
      try
        (lift (tuple_for op p) >>= λ t.
          call fx (stage_plane t)
          >> stage_membership_if op.target_generation p fx.stage_membership
          >> pure staged)
        stage_failed

  abbrev pub is_staged : PlaneProgress → Bool
  is_staged staged = true
  is_staged _ = false

  -- How many planes have gone on, and the progress.
  unfoldable pub stage_planes :
      ApplyOperation
      → List Plane
      → ℕ
      → PerPlane (Option PlaneProgress)
      → Run W (ℕ × PerPlane (Option PlaneProgress))
  stage_planes op [] advanced progress = pure (advanced, progress)
  stage_planes op (p ∷ ps) advanced progress = stage_one op p >>= λ how.
      stage_planes op ps (if is_staged how then advanced + 1 else advanced)
        (put progress p (some how))

  unfoldable pub published_step : JournalEntry → Run W (Unit {0})
  published_step j = stage_planes j.op (planes_of j.op) 0 j.progress >>= λ r.
      if r.0 == 0
      then fail_all fx j no_plane_left
      else write_on fx
          (next j (λ j. record j { phase = ApplyPhase.membership_staged; progress = r.1 }))

  abbrev pub commit_failed : Thrown → Run W PlaneProgress
  commit_failed (rejection e) = pure failed
  commit_failed e = throw e

  unfoldable pub commit_one : ApplyOperation → ActivationEvidence → Plane → Run W PlaneProgress
  commit_one op e p =
      try (lift (tuple_for op p) >>= λ t. call fx (commit_plane t e) >> pure committed)
        commit_failed

  unfoldable pub commit_planes :
      ApplyOperation
      → ActivationEvidence
      → List Plane
      → PerPlane (Option PlaneProgress)
      → Run W (PerPlane (Option PlaneProgress))
  commit_planes op e [] progress = pure progress
  commit_planes op e (p ∷ ps) progress =
      commit_one op e p >>= λ how. commit_planes op e ps (put progress p (some how))

  abbrev pub phase_by : ℕ → ℕ → ApplyPhase
  phase_by n all =
      if n == all
      then ApplyPhase.activated
      else if n == 0
      then ApplyPhase.failed
      else ApplyPhase.partially_activated

  abbrev pub is_partly : ApplyPhase → Bool
  is_partly ApplyPhase.partially_activated = true
  is_partly _ = false

  unfoldable pub close_commits :
      JournalEntry → ActivationEvidence → PerPlane (Option PlaneProgress) → Run W (Unit {0})
  close_commits j e progress =
      let phase =
        phase_by (length (committed_planes progress (planes_of j.op))) (length (planes_of j.op)) in
      write_on fx (next j (λ j. record j { phase = phase; progress = progress; evidence = some e }))
      >> (if is_partly phase
          then pure tt
          else call fx (operation_finish j.op (stuck_planes progress (planes_of j.op))))

  unfoldable pub commit_if_proved : JournalEntry → Option ActivationEvidence → Run W (Unit {0})
  commit_if_proved j none = write_on fx (next j (in_phase ApplyPhase.reload_intent))
  commit_if_proved j (some e) =
      if proves_activation (some e) j.op.target_generation
      then commit_planes j.op e (planes_of j.op) j.progress >>= close_commits j e
      else write_on fx (next j (in_phase ApplyPhase.reload_intent))

  unfoldable pub observed_step : JournalEntry → Run W (Unit {0})
  observed_step j = budget fx fx.observe_published >>= λ now.
      if published_by_me now j.op
      then await_activation fx fx.poll_attempts j.op.target_generation none >>= commit_if_proved j
      else write_on fx (next j (in_phase ApplyPhase.publish_intent))

  unfoldable pub exhaust : JournalEntry → Run W (Option ApplyResult)
  exhaust j =
      write_on fx (next j (in_phase ApplyPhase.partial_exhausted))
      >> call fx (operation_finish j.op (stuck_planes j.progress (planes_of j.op)))
      >> (read fx (λ s. s.journal) >>= λ now. pure (some (result_of (latest now j))))

  unfoldable pub retry_partial : JournalEntry → Run W (Unit {0})
  retry_partial j =
      if is_empty (stuck_planes j.progress (planes_of j.op))
      then write_on fx (next j (in_phase ApplyPhase.activated))
      else write_on fx (next j (λ j. one_more fx (in_phase ApplyPhase.reload_observed j)))

  abbrev pub and_go_on : Run W (Unit {0}) → Run W (Option ApplyResult)
  and_go_on m = m >> pure none

  unfoldable pub partial_step : JournalEntry → Run W (Option ApplyResult)
  partial_step j =
      if leb (reload_attempt_limit + partial_retry_limit) j.reload_attempts
      then exhaust j
      else and_go_on (retry_partial j)

  -- The `switch`; a result ends the loop.
  unfoldable pub step : ApplyPhase → JournalEntry → Run W (Option ApplyResult)
  step ApplyPhase.preflight j = and_go_on (preflight_step j)
  step ApplyPhase.publish_intent j = and_go_on (publish_step j)
  step ApplyPhase.published j = and_go_on (published_step j)
  step ApplyPhase.membership_staged j =
      and_go_on (write_on fx (next j (in_phase ApplyPhase.reload_intent)))
  step ApplyPhase.reload_intent j = and_go_on (reload_step fx j)
  step ApplyPhase.reload_observed j = and_go_on (observed_step j)
  step ApplyPhase.partially_activated j = partial_step j
  step ApplyPhase.superseded j = pure none
  step _ j = pure (some (result_of j))
