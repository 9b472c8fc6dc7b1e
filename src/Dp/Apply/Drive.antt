-- ===== src/Dp/Apply/Drive.antt =====
-- src/dp/apply.ts, `ApplyRunner`: the loop that drives the journal's operation, `run` and `recover`.
-- The loop's guard is what its recursion is on; it throws when it has run out. `exclusiveApply` lets
-- one drive run at a time.
use barycenter.Prelude.{
  ℕ, zero, suc, Bool, true, false, not, ◌&&◌, ◌||◌, Option, none, some, List, [], ◌∷◌, ◌+◌, ltb,
  if◌then◌else◌,
}
use barycenter.Dp.Operation.{
  Plane, ApplyOperation, reserved, ApplyPhase, is_terminal_phase, ApplyResult, planes_of,
}
use barycenter.Dp.Agent.State.{TerminalKind, JournalEntry, AgentState, OperationTuple}
use barycenter.Dp.Agent.Identity.{tuples_for, tuple_author, terminal_of, owns_journal}
use barycenter.Dp.Agent.Opening.{Opening, holder_is_op}
use barycenter.Dp.Agent.Journal.{reached_phase}
use barycenter.Dp.Agent.Requests.{
  reserve_planes, journal_close, idle_holder_release, reclaim, stale_slots_release,
  operation_finish,
}
use barycenter.Dp.Apply.Monad.{
  effect_timed_out, Effects, Thrown, timed_out, cycle, Run, ◌>>=◌, ◌>>◌, pure, throw, try, lift,
  read, call,
}
use barycenter.Dp.Apply.Envelope.{
  assert_envelope, progress_of, empty_result, result_of, stuck_planes,
}
use barycenter.Dp.Apply.Steps.{fail_all, assert_owner}
use barycenter.Dp.Apply.Phases.{step, latest}

abbrev pub hard_limit : ℕ
hard_limit = 64

abbrev is_aborted : Option TerminalKind → Bool
is_aborted (some TerminalKind.aborted) = true
is_aborted _ = false

abbrev is_bad : Option TerminalKind → Bool
is_bad (some TerminalKind.aborted) = true
is_bad (some TerminalKind.failed) = true
is_bad _ = false

abbrev some_aborted : AgentState → List OperationTuple → Bool
some_aborted s [] = false
some_aborted s (t ∷ ts) = is_aborted (terminal_of s (tuple_author t) t.plane) || some_aborted s ts

abbrev all_bad : AgentState → List OperationTuple → Bool
all_bad s [] = true
all_bad s (t ∷ ts) = is_bad (terminal_of s (tuple_author t) t.plane) && all_bad s ts

-- Whether the operation was closed from outside: a plane given up, or all of them over.
unfoldable pub is_closed : AgentState → List OperationTuple → Bool
is_closed s ts = some_aborted s ts || all_bad s ts

module _ {W : Type 0} (fx : Effects W) where
  abbrev pub finish_if : Bool → ApplyOperation → List Plane → Run W (Unit {0})
  finish_if true op ps = call fx (operation_finish op ps)
  finish_if false op ps = pure tt

  -- The journal is another operation's.
  unfoldable pub foreign : ApplyOperation → Run W (Option ApplyResult)
  foreign bound = read fx (λ s. holder_is_op s.active_operation bound) >>= λ mine.
      finish_if mine bound [] >> pure (some empty_result)

  -- The journal's operation is over.
  unfoldable pub settled : JournalEntry → Run W (Option ApplyResult)
  settled j = read fx (λ s. holder_is_op s.active_operation j.op) >>= λ mine.
      finish_if mine j.op (stuck_planes j.progress (planes_of j.op)) >> pure (some (result_of j))

  abbrev pub close_as : JournalEntry → Option ApplyPhase → Run W (Unit {0})
  close_as j none = pure tt
  close_as j (some how) = call fx (journal_close j.op how)

  abbrev latest_terminal : JournalEntry → Option JournalEntry → JournalEntry
  latest_terminal j none = j
  latest_terminal j (some now) = if is_terminal_phase now.phase then now else j

  -- The operation was closed from outside, and its journal is closed as far as it went.
  unfoldable pub close_closed : JournalEntry → Run W (Option ApplyResult)
  close_closed j = read fx reached_phase >>= λ r. lift r >>= λ how.
      close_as j how
      >> call fx (operation_finish j.op (planes_of j.op))
      >> (read fx (λ s. s.journal) >>= λ now. pure (some (result_of (latest_terminal j now))))

  abbrev pub step_unless : Bool → JournalEntry → Run W (Option ApplyResult)
  step_unless true j = throw cycle
  step_unless false j = step fx j.phase j

  unfoldable pub go_on : Bool → JournalEntry → Run W (Option ApplyResult)
  go_on exhausted j = assert_owner fx j.op >> step_unless exhausted j

  abbrev pub closed_or_on : Bool → Bool → JournalEntry → Run W (Option ApplyResult)
  closed_or_on exhausted true j = close_closed j
  closed_or_on exhausted false j = go_on exhausted j

  unfoldable pub own_round : Bool → JournalEntry → Run W (Option ApplyResult)
  own_round exhausted j = lift (tuples_for j.op (planes_of j.op)) >>= λ ts.
      read fx (λ s. is_closed s ts) >>= λ closed. closed_or_on exhausted closed j

  unfoldable pub round_of : Bool → ApplyOperation → Option JournalEntry → Run W (Option ApplyResult)
  round_of exhausted bound none = pure (some empty_result)
  round_of exhausted bound (some j) =
      if not (owns_journal (some j) bound)
      then foreign bound
      else if is_terminal_phase j.phase
      then settled j
      else own_round exhausted j

  -- One round of the loop; a result ends it.
  unfoldable pub round : Bool → ApplyOperation → Run W (Option ApplyResult)
  round exhausted bound = read fx (λ s. s.journal) >>= round_of exhausted bound

  abbrev pub or_again : Run W ApplyResult → Option ApplyResult → Run W ApplyResult
  or_again again none = again
  or_again again (some r) = pure r

  -- The rounds that are left before the guard.
  unfoldable pub drive_loop : ℕ → ApplyOperation → Run W ApplyResult
  drive_loop zero bound = round true bound >>= or_again (throw cycle)
  drive_loop (suc left) bound = round false bound >>= or_again (drive_loop left bound)

  abbrev with_failure : ApplyResult → ApplyResult
  with_failure r = record r { failure = some (fx.text_of effect_timed_out) }

  unfoldable pub give_up : ApplyOperation → Option JournalEntry → Run W ApplyResult
  give_up bound none = pure (with_failure empty_result)
  give_up bound (some j) =
      if owns_journal (some j) bound
      then fail_all fx j effect_timed_out
        >> (read fx (λ s. s.journal) >>= λ now. pure (with_failure (result_of (latest now j))))
      else pure (with_failure empty_result)

  abbrev pub on_timeout : ApplyOperation → Thrown → Run W ApplyResult
  on_timeout bound timed_out = read fx (λ s. s.journal) >>= give_up bound
  on_timeout bound e = throw e

  unfoldable pub drive : ApplyOperation → Run W ApplyResult
  drive bound = try (drive_loop (hard_limit + 1) bound) (on_timeout bound)

  abbrev opening_of : ApplyOperation → Opening
  opening_of op = record {
    op = op;
    phase = ApplyPhase.preflight;
    reload_attempts = 0;
    progress = progress_of op reserved;
  }

  unfoldable pub run_operation : ApplyOperation → Run W ApplyResult
  run_operation op =
      lift (assert_envelope op) >> call fx (reserve_planes op (some (opening_of op))) >> drive op

  unfoldable pub recover_stale : JournalEntry → Run W ApplyResult
  recover_stale j =
      call fx (journal_close j.op ApplyPhase.superseded)
      >> call fx (stale_slots_release j.op)
      >> (read fx (λ s. s.journal) >>= λ now. pure (result_of (latest now j)))

  unfoldable pub recover_open : JournalEntry → Bool → Run W ApplyResult
  recover_open j true = recover_stale j
  recover_open j false = call fx (reclaim j.op) >> drive j.op

  unfoldable pub recover_journal : Option JournalEntry → Run W ApplyResult
  recover_journal none = call fx idle_holder_release >> pure empty_result
  recover_journal (some j) =
      if is_terminal_phase j.phase
      then call fx (operation_finish j.op (stuck_planes j.progress (planes_of j.op)))
        >> pure (result_of j)
      else read fx (λ s. ltb j.op.leader_token s.max_leader_token) >>= recover_open j

  unfoldable pub recover : Run W ApplyResult
  recover = read fx (λ s. s.journal) >>= recover_journal
