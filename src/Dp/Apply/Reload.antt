-- ===== src/Dp/Apply/Reload.antt =====
-- src/dp/apply.ts, the phase `reload_intent`: whether to send a reload, and what is seen after it.
use barycenter.Prelude.{
  ℕ, Bool, true, false, ◌&&◌, ◌||◌, Option, none, some, ◌+◌, ltb, leb, if◌then◌else◌,
}
use barycenter.Dp.Operation.{
  Name, ApplyOperation, ActivationEvidence, proves_activation, ApplyPhase,
}
use barycenter.Dp.Agent.State.{JournalEntry, journal_conflict}
use barycenter.Dp.Agent.Identity.{owns_journal}
use barycenter.Dp.Apply.Monad.{
  Reason, blind_reload, reload_unseen, Effects, Thrown, rejection, Run, ◌>>=◌, ◌>>◌, pure, throw,
  try, read, call_reload,
}
use barycenter.Dp.Apply.Envelope.{next, in_phase}
use barycenter.Dp.Apply.Steps.{
  Observed, seen, unread, evidence_of, keep_evidence, write, write_on, observe_read,
  await_activation, fail_all,
}

abbrev pub reload_attempt_limit : ℕ
reload_attempt_limit = 2

module _ {W : Type 0} (fx : Effects W) where
  abbrev pub after_reload : Name → ActivationEvidence → JournalEntry → JournalEntry
  after_reload gen e j =
      if proves_activation (some e) gen
      then record j { phase = ApplyPhase.reload_observed; evidence = some e }
      else record j { evidence = some e }

  unfoldable pub note_evidence :
      ApplyOperation → ActivationEvidence → Option JournalEntry → Run W (Unit {0})
  note_evidence op e none = pure tt
  note_evidence op e (some now) =
      if owns_journal (some now) op
      then write_on fx (next now (after_reload op.target_generation e))
      else pure tt

  unfoldable pub note_activation : ApplyOperation → Option ActivationEvidence → Run W (Unit {0})
  note_activation op none = pure tt
  note_activation op (some e) = read fx (λ s. s.journal) >>= note_evidence op e

  -- The reload is sent if its attempt has been written.
  unfoldable pub signal_step : ApplyOperation → Bool → Run W (Unit {0})
  signal_step op false = pure tt
  signal_step op true =
      call_reload fx op
      >> (await_activation fx fx.poll_attempts op.target_generation none >>= note_activation op)

  abbrev pub unless_outrun : Thrown → Run W Bool
  unless_outrun (rejection journal_conflict) = pure false
  unless_outrun e = throw e

  abbrev pub one_more : JournalEntry → JournalEntry
  one_more j = record j { reload_attempts = j.reload_attempts + 1 }

  -- Whether the attempt has been written.
  unfoldable pub write_ahead : JournalEntry → Run W Bool
  write_ahead j = try (write fx (next j one_more) >> pure true) unless_outrun

  -- The attempt is written before the reload.
  unfoldable pub reload_once : JournalEntry → Run W (Unit {0})
  reload_once j = write_ahead j >>= signal_step j.op

  abbrev pub is_unread : Observed → Bool
  is_unread (seen e) = false
  is_unread unread = true

  abbrev pub reload_reason : Observed → Reason
  reload_reason (seen e) = reload_unseen
  reload_reason unread = blind_reload

  unfoldable pub reload_blindly : JournalEntry → Observed → Run W (Unit {0})
  reload_blindly j o =
      if leb reload_attempt_limit j.reload_attempts || (is_unread o && ltb 0 j.reload_attempts)
      then fail_all fx j (reload_reason o)
      else reload_once j

  unfoldable pub reload_unless : JournalEntry → Observed → Run W (Unit {0})
  reload_unless j o =
      if proves_activation (evidence_of o) j.op.target_generation
      then write_on fx
          (next j (λ j. keep_evidence (evidence_of o) (in_phase ApplyPhase.reload_observed j)))
      else reload_blindly j o

  unfoldable pub reload_step : JournalEntry → Run W (Unit {0})
  reload_step j = observe_read fx >>= reload_unless j
