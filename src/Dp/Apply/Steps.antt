-- ===== src/Dp/Apply/Steps.antt =====
-- src/dp/apply.ts, what the phases share: writes of the journal, reads of the activation, the lease,
-- and `failAll`.
use barycenter.Prelude.{
  ℕ, zero, suc, Bool, true, false, Option, none, some, List, [], ◌∷◌, if◌then◌else◌,
}
use barycenter.Dp.Operation.{
  Name, Plane, put, PerPlane, ApplyOperation, PlaneProgress, failed, committed, ActivationEvidence,
  proves_activation, ApplyPhase, planes_of,
}
use barycenter.Dp.Agent.State.{JournalEntry}
use barycenter.Dp.Agent.Identity.{tuple_for}
use barycenter.Dp.Agent.Journal.{assert_ownership, moved_by_me, reached_phase}
use barycenter.Dp.Agent.Requests.{journal_write, operation_finish, fail_plane}
use barycenter.Dp.Apply.Monad.{
  Reason, Effects, Outcome, done, Run, ◌>>=◌, ◌>>◌, pure, try, lift, budget, read, call,
  ignore_conflict, ignore_rejection,
}
use barycenter.Dp.Apply.Envelope.{next}

-- The last of the phases written, the newest first.
abbrev is_last : ApplyPhase → List ApplyPhase → Bool
is_last p [] = false
is_last ApplyPhase.preflight (ApplyPhase.preflight ∷ ps) = true
is_last ApplyPhase.publish_intent (ApplyPhase.publish_intent ∷ ps) = true
is_last ApplyPhase.published (ApplyPhase.published ∷ ps) = true
is_last ApplyPhase.membership_staged (ApplyPhase.membership_staged ∷ ps) = true
is_last ApplyPhase.reload_intent (ApplyPhase.reload_intent ∷ ps) = true
is_last ApplyPhase.reload_observed (ApplyPhase.reload_observed ∷ ps) = true
is_last ApplyPhase.activated (ApplyPhase.activated ∷ ps) = true
is_last ApplyPhase.partially_activated (ApplyPhase.partially_activated ∷ ps) = true
is_last ApplyPhase.partial_exhausted (ApplyPhase.partial_exhausted ∷ ps) = true
is_last ApplyPhase.failed (ApplyPhase.failed ∷ ps) = true
is_last ApplyPhase.superseded (ApplyPhase.superseded ∷ ps) = true
is_last ApplyPhase.no_operation (ApplyPhase.no_operation ∷ ps) = true
is_last p (q ∷ ps) = false

-- A read of the activation, or the news that it could not be read.
pub data Observed : Type 0 where
  seen : Option ActivationEvidence → Observed
  unread : Observed

abbrev pub evidence_of : Observed → Option ActivationEvidence
evidence_of (seen e) = e
evidence_of unread = none

abbrev pub keep_evidence : Option ActivationEvidence → JournalEntry → JournalEntry
keep_evidence none j = j
keep_evidence (some e) j = record j { evidence = some e }

abbrev or_phase : Option ApplyPhase → ApplyPhase → ApplyPhase
or_phase none p = p
or_phase (some q) p = q

module _ {W : Type 0} (fx : Effects W) where
  unfoldable pub push_phase : ApplyPhase → Run W (Unit {0})
  push_phase p s =
      (record s { history = if is_last p s.history then s.history else p ∷ s.history }, done_unit)
    where
      done_unit : Outcome (Unit {0})
      done_unit = done tt

  unfoldable pub write : JournalEntry → Run W (Unit {0})
  write entry = call fx (journal_write entry) >> push_phase entry.phase

  -- A write whose conflict is ignored: the next round reads what there is.
  unfoldable pub write_on : JournalEntry → Run W (Unit {0})
  write_on entry = ignore_conflict fx (write entry)

  unfoldable pub observe_read : Run W Observed
  observe_read = try (budget fx fx.observe_activation >>= λ e. pure (seen e)) (λ e. pure unread)

  unfoldable pub observe : Run W (Option ActivationEvidence)
  observe = observe_read >>= λ o. pure (evidence_of o)

  unfoldable pub await_activation :
      ℕ → Name → Option ActivationEvidence → Run W (Option ActivationEvidence)
  await_activation zero target last = pure last
  await_activation (suc attempts) target last = observe >>= λ now.
      if proves_activation now target then pure now else await_activation attempts target now

  unfoldable pub assert_owner : ApplyOperation → Run W (Unit {0})
  assert_owner op = read fx (λ s. assert_ownership s op) >>= lift

  -- One plane of an operation that is given up: what has moved stays committed.
  unfoldable pub fail_plane_of : ApplyOperation → Plane → Bool → Run W PlaneProgress
  fail_plane_of op plane true = pure committed
  fail_plane_of op plane false =
      lift (tuple_for op plane) >>= λ t. ignore_rejection fx (call fx (fail_plane t)) >> pure failed

  unfoldable pub fail_planes :
      ApplyOperation
      → List Plane
      → PerPlane (Option PlaneProgress)
      → Run W (PerPlane (Option PlaneProgress))
  fail_planes op [] progress = pure progress
  fail_planes op (p ∷ ps) progress = read fx (λ s. moved_by_me s op p) >>= λ r. lift r >>= λ moved.
      fail_plane_of op p moved >>= λ how. fail_planes op ps (put progress p (some how))

  unfoldable pub fail_all : JournalEntry → Reason → Run W (Unit {0})
  fail_all j reason = fail_planes j.op (planes_of j.op) j.progress >>= λ progress.
      read fx reached_phase >>= λ r. lift r >>= λ reached.
      write_on (
        next j (λ j. record j {
          phase = or_phase reached j.phase;
          progress = progress;
          failure = some (fx.text_of reason);
        }))
      >> call fx (operation_finish j.op [])
