-- ===== src/Dp/Apply/WholeDrive.antt =====
-- The runner keeps what its primitive steps keep: the loop, `run` and `recover`.
use barycenter.Prelude.{ℕ, ◌<◌, zero, suc, Bool, true, false, Option, none, some, List}
use barycenter.Dp.Operation.{Plane, ApplyOperation, ApplyPhase, ApplyResult}
use barycenter.Dp.Agent.State.{JournalEntry}
use barycenter.Dp.Apply.Monad.{Effects, Runner, Thrown, timed_out, Run}
use barycenter.Dp.Apply.Drive.{
  finish_if, foreign, settled, close_as, close_closed, step_unless, go_on, closed_or_on, own_round,
  round_of, round, or_again, drive_loop, give_up, on_timeout, drive, run_operation, recover_stale,
  recover_open, recover_journal, recover,
}
use barycenter.Dp.Apply.Phases.{announce}
use barycenter.Dp.Apply.Reload.{reload_attempt_limit, reload_once}
use barycenter.Dp.Apply.Stable.{Keeps, IsStable}
use barycenter.Dp.Apply.Whole.{keeps_rules, Keeps-assert_owner, Keeps-fail_all}
use barycenter.Dp.Apply.WholePhases.{Keeps-step}

module _ {W : Type 0} {fx : Effects W} {R : Runner W → Runner W → Type 0} (stable : IsStable fx R)
    (of_publish : (op : ApplyOperation) → Keeps R (announce fx op))
    (of_reload : (j : JournalEntry)
      → j.reload_attempts < reload_attempt_limit
      → Keeps R (reload_once fx j)) where
  Keeps-finish_if :
      (b : Bool) (op : ApplyOperation) (ps : List Plane) → Keeps R (finish_if fx b op ps)
  Keeps-finish_if true op ps = search keeps_rules
  Keeps-finish_if false op ps = search keeps_rules

  Keeps-foreign : (op : ApplyOperation) → Keeps R (foreign fx op)
  unfolding foreign
  Keeps-foreign op = search (keeps_rules, Keeps-finish_if)

  Keeps-settled : (j : JournalEntry) → Keeps R (settled fx j)
  unfolding settled
  Keeps-settled j = search (keeps_rules, Keeps-finish_if)

  Keeps-close_as : (j : JournalEntry) (how : Option ApplyPhase) → Keeps R (close_as fx j how)
  Keeps-close_as j none = search keeps_rules
  Keeps-close_as j (some how) = search keeps_rules

  Keeps-close_closed : (j : JournalEntry) → Keeps R (close_closed fx j)
  unfolding close_closed
  Keeps-close_closed j = search (keeps_rules, Keeps-close_as)

  Keeps-step_unless : (exhausted : Bool) (j : JournalEntry) → Keeps R (step_unless fx exhausted j)
  Keeps-step_unless true j = search keeps_rules
  Keeps-step_unless false j = Keeps-step stable of_publish of_reload j.phase j

  Keeps-go_on : (exhausted : Bool) (j : JournalEntry) → Keeps R (go_on fx exhausted j)
  unfolding go_on
  Keeps-go_on exhausted j = search (keeps_rules, Keeps-assert_owner, Keeps-step_unless)

  Keeps-closed_or_on :
      (exhausted closed : Bool) (j : JournalEntry) → Keeps R (closed_or_on fx exhausted closed j)
  Keeps-closed_or_on exhausted true j = Keeps-close_closed j
  Keeps-closed_or_on exhausted false j = Keeps-go_on exhausted j

  Keeps-own_round : (exhausted : Bool) (j : JournalEntry) → Keeps R (own_round fx exhausted j)
  unfolding own_round
  Keeps-own_round exhausted j = search (keeps_rules, Keeps-closed_or_on)

  Keeps-round_of :
      (exhausted : Bool) (bound : ApplyOperation) (j : Option JournalEntry)
      → Keeps R (round_of fx exhausted bound j)
  unfolding round_of
  Keeps-round_of exhausted bound none = search keeps_rules
  Keeps-round_of exhausted bound (some j) =
      search (keeps_rules, Keeps-foreign, Keeps-settled, Keeps-own_round)

  Keeps-round : (exhausted : Bool) (bound : ApplyOperation) → Keeps R (round fx exhausted bound)
  unfolding round
  Keeps-round exhausted bound = search (keeps_rules, Keeps-round_of)

  Keeps-or_again :
      {m : Run W ApplyResult} → Keeps R m → (r : Option ApplyResult) → Keeps R (or_again fx m r)
  Keeps-or_again h none = h
  Keeps-or_again h (some r) = search keeps_rules

  pub Keeps-drive_loop : (left : ℕ) (bound : ApplyOperation) → Keeps R (drive_loop fx left bound)
  unfolding drive_loop
  Keeps-drive_loop zero bound = search (keeps_rules, Keeps-round, Keeps-or_again)
  Keeps-drive_loop (suc left) bound =
      search (keeps_rules, Keeps-round, Keeps-or_again (Keeps-drive_loop left bound))

  Keeps-give_up : (bound : ApplyOperation) (j : Option JournalEntry) → Keeps R (give_up fx bound j)
  unfolding give_up
  Keeps-give_up bound none = search keeps_rules
  Keeps-give_up bound (some j) = search (keeps_rules, Keeps-fail_all)

  Keeps-on_timeout : (bound : ApplyOperation) (e : Thrown) → Keeps R (on_timeout fx bound e)
  Keeps-on_timeout bound timed_out = search (keeps_rules, Keeps-give_up)
  Keeps-on_timeout bound e = search keeps_rules

  pub Keeps-drive : (bound : ApplyOperation) → Keeps R (drive fx bound)
  unfolding drive
  Keeps-drive bound = search (keeps_rules, Keeps-drive_loop, Keeps-on_timeout)

  pub Keeps-run_operation : (op : ApplyOperation) → Keeps R (run_operation fx op)
  unfolding run_operation
  Keeps-run_operation op = search (keeps_rules, Keeps-drive)

  Keeps-recover_stale : (j : JournalEntry) → Keeps R (recover_stale fx j)
  unfolding recover_stale
  Keeps-recover_stale j = search keeps_rules

  Keeps-recover_open : (j : JournalEntry) (stale : Bool) → Keeps R (recover_open fx j stale)
  unfolding recover_open
  Keeps-recover_open j true = Keeps-recover_stale j
  Keeps-recover_open j false = search (keeps_rules, Keeps-drive)

  Keeps-recover_journal : (j : Option JournalEntry) → Keeps R (recover_journal fx j)
  unfolding recover_journal
  Keeps-recover_journal none = search keeps_rules
  Keeps-recover_journal (some j) = search (keeps_rules, Keeps-recover_open)

  pub Keeps-recover : Keeps R (recover fx)
  unfolding recover
  Keeps-recover = search (keeps_rules, Keeps-recover_journal)
