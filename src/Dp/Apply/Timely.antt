-- ===== src/Dp/Apply/Timely.antt =====
-- What cannot end with an effect's timeout: all that calls no effect, and what the runner makes of
-- the rest.
use barycenter.Prelude.{
  ◌≡◌, ◌≢◌, inl, inr, Option-cases, ◌+◌, refl, ap, ◌∙◌, arith, Bool, true, false, Option, none,
  some, List, [], ◌∷◌, if◌then◌else◌,
}
use barycenter.Dp.Operation.{Plane, PerPlane, PlaneProgress, ApplyOperation, ApplyPhase}
use barycenter.Dp.Agent.State.{Result, ok, err, AgentState, JournalEntry, journal_conflict}
use barycenter.Dp.Agent.Requests.{Request, handle}
use barycenter.Dp.Agent.Prune.{prune}
use barycenter.Dp.Agent.Checks.{assert_invariants}
use barycenter.Dp.Agent.Ensures.{Result-cases}
use barycenter.Dp.Apply.Monad.{
  Effects, Runner, Outcome, done, thrown, Thrown, rejection, violation, timed_out, error, cycle,
  Run, and_then, ◌>>=◌, ◌>>◌, pure, throw, catch_after, try, lift, read, call, Reason,
  ignore_conflict, ignore_rejection, unless_conflict, unless_rejection, meet_others,
}
use barycenter.Dp.Apply.Steps.{push_phase, write, write_on, fail_plane_of, fail_planes, fail_all}
use barycenter.Dp.Apply.Drive.{
  hard_limit, drive_loop, give_up, on_timeout, drive, run_operation, recover_stale, recover_open,
  recover_journal, recover,
}

pub record IsTimely {W A : Type 0} (m : Run W A) : Type 0 where
  pub ends : (s : Runner W) → (m s).1 ≢ thrown timed_out

module _ {W : Type 0} (fx : Effects W) where
  IsTimely-pure : {A : Type 0} (a : A) → IsTimely {W = W} (pure a)
  unfolding pure
  IsTimely-pure a = record { ends = λ s. ground arith }

  and_then_timely :
      {A B : Type 0} (f : A → Run W B) (r : Runner W × Outcome A)
      → (r.1 ≢ thrown timed_out)
      → ((a : A) → IsTimely (f a))
      → (and_then f r).1 ≢ thrown timed_out
  and_then_timely f (s, done a) h k = (k a).ends s
  and_then_timely f (s, thrown e) h k = λ same. h (ground arith)

  IsTimely-bind :
      {A B : Type 0} {m : Run W A} {f : A → Run W B}
      → IsTimely m
      → ((a : A) → IsTimely (f a))
      → IsTimely (m >>= f)
  unfolding ◌>>=◌
  IsTimely-bind {m} {f} h k = record { ends = λ s. and_then_timely f (m s) (h.ends s) k }

  IsTimely-then :
      {B : Type 0} {m : Run W (Unit {0})} {k : Run W B}
      → IsTimely m
      → IsTimely k
      → IsTimely (m >> k)
  unfolding ◌>>◌
  IsTimely-then {m} {k} h i = record {
    ends = λ s. and_then_timely (λ _. k) (m s) (h.ends s) (λ _. i);
  }

  catch_after_timely :
      {A : Type 0} (f : Thrown → Run W A) (r : Runner W × Outcome A)
      → ((e : Thrown) → r.1 ≡ thrown e → IsTimely (f e))
      → (catch_after f r).1 ≢ thrown timed_out
  catch_after_timely f (s, done a) k = ground arith
  catch_after_timely f (s, thrown e) k = (k e refl).ends s

  -- A handler for whatever is thrown, timeouts included.
  IsTimely-catch :
      {A : Type 0} (m : Run W A) {f : Thrown → Run W A}
      → ((e : Thrown) → IsTimely (f e))
      → IsTimely (try m f)
  unfolding try
  IsTimely-catch m {f} k = record { ends = λ s. catch_after_timely f (m s) (λ e _. k e) }

  -- A handler that passes on what it does not catch.
  IsTimely-try :
      {A : Type 0} {m : Run W A} {f : Thrown → Run W A}
      → IsTimely m
      → ((e : Thrown) → e ≢ timed_out → IsTimely (f e))
      → IsTimely (try m f)
  unfolding try
  IsTimely-try {m} {f} h k = record {
    ends =
        λ s. catch_after_timely f (m s) (λ e same. k e (λ late. h.ends s (same ∙ ap thrown late)));
  }

  IsTimely-throw : {A : Type 0} (e : Thrown) → e ≢ timed_out → IsTimely {W = W} {A = A} (throw e)
  unfolding throw
  IsTimely-throw e h = record { ends = λ s same. h (ground arith) }

  IsTimely-lift : {A : Type 0} (r : Result A) → IsTimely {W = W} (lift r)
  unfolding lift pure throw
  IsTimely-lift (ok a) = record { ends = λ s. ground arith }
  IsTimely-lift (err e) = record { ends = λ s. ground arith }

  IsTimely-read : {A : Type 0} (f : AgentState → A) → IsTimely (read fx f)
  unfolding read
  IsTimely-read f = record { ends = λ s. ground arith }

  IsTimely-call : (r : Request) → IsTimely (call fx r)
  unfolding call
  IsTimely-call r = record {
    ends = λ s. elim (Result-cases (handle (meet_others fx s).agent r)) [
      | inl (e, bad) ↦ ground arith
      | inr (t, good) ↦
          elim (Option-cases (assert_invariants (some (meet_others fx s).agent) (prune t))) [
            | inl fine ↦ ground arith
            | inr (v, found) ↦ ground arith
          ]
    ];
  }

  IsTimely-if :
      {A : Type 0} (b : Bool) {m k : Run W A}
      → IsTimely m
      → IsTimely k
      → IsTimely (if b then m else k)
  IsTimely-if true h i = h
  IsTimely-if false h i = i

ruleset timely_rules = (
  IsTimely-if, IsTimely-pure, IsTimely-bind, IsTimely-then, IsTimely-lift, IsTimely-read,
  IsTimely-call,
)

module _ {W : Type 0} (fx : Effects W) where
  IsTimely-unless_conflict : (e : Thrown) → e ≢ timed_out → IsTimely (unless_conflict fx e)
  IsTimely-unless_conflict (rejection journal_conflict) h = IsTimely-pure fx tt
  IsTimely-unless_conflict e h = IsTimely-throw fx e h

  IsTimely-unless_rejection : (e : Thrown) → e ≢ timed_out → IsTimely (unless_rejection fx e)
  IsTimely-unless_rejection (rejection e) h = IsTimely-pure fx tt
  IsTimely-unless_rejection e h = IsTimely-throw fx e h

  IsTimely-push_phase : (p : ApplyPhase) → IsTimely (push_phase fx p)
  unfolding push_phase
  IsTimely-push_phase p = record { ends = λ s. ground arith }

  IsTimely-write_on : (entry : JournalEntry) → IsTimely (write_on fx entry)
  unfolding write_on write ignore_conflict
  IsTimely-write_on entry =
      IsTimely-try fx (search (timely_rules, IsTimely-push_phase)) IsTimely-unless_conflict

  IsTimely-fail_plane_of :
      (op : ApplyOperation) (p : Plane) (moved : Bool) → IsTimely (fail_plane_of fx op p moved)
  unfolding fail_plane_of ignore_rejection
  IsTimely-fail_plane_of op p true = search timely_rules
  IsTimely-fail_plane_of op p false = IsTimely-bind fx (IsTimely-lift fx _) (λ t.
      IsTimely-then fx (IsTimely-try fx (IsTimely-call fx _) IsTimely-unless_rejection)
        (IsTimely-pure fx _))

  IsTimely-fail_planes :
      (op : ApplyOperation) (ps : List Plane) (progress : PerPlane (Option PlaneProgress))
      → IsTimely (fail_planes fx op ps progress)
  unfolding fail_planes
  IsTimely-fail_planes op [] progress = search timely_rules
  IsTimely-fail_planes op (p ∷ ps) progress =
      search (timely_rules, IsTimely-fail_plane_of, IsTimely-fail_planes op ps)

  IsTimely-fail_all : (j : JournalEntry) (reason : Reason) → IsTimely (fail_all fx j reason)
  unfolding fail_all
  IsTimely-fail_all j reason = search (timely_rules, IsTimely-fail_planes, IsTimely-write_on)

  IsTimely-give_up :
      (bound : ApplyOperation) (j : Option JournalEntry) → IsTimely (give_up fx bound j)
  unfolding give_up
  IsTimely-give_up bound none = search timely_rules
  IsTimely-give_up bound (some j) = search (timely_rules, IsTimely-fail_all)

  IsTimely-on_timeout : (bound : ApplyOperation) (e : Thrown) → IsTimely (on_timeout fx bound e)
  IsTimely-on_timeout bound timed_out = search (timely_rules, IsTimely-give_up)
  IsTimely-on_timeout bound (rejection e) = IsTimely-throw fx _ (ground arith)
  IsTimely-on_timeout bound (violation e) = IsTimely-throw fx _ (ground arith)
  IsTimely-on_timeout bound error = IsTimely-throw fx _ (ground arith)
  IsTimely-on_timeout bound cycle = IsTimely-throw fx _ (ground arith)

  IsTimely-drive : (bound : ApplyOperation) → IsTimely (drive fx bound)
  unfolding drive
  IsTimely-drive bound =
      IsTimely-catch fx (drive_loop fx (hard_limit + 1) bound) (IsTimely-on_timeout bound)

  IsTimely-run_operation : (op : ApplyOperation) → IsTimely (run_operation fx op)
  unfolding run_operation
  IsTimely-run_operation op = search (timely_rules, IsTimely-drive)

  IsTimely-recover_open : (j : JournalEntry) (stale : Bool) → IsTimely (recover_open fx j stale)
  unfolding recover_open recover_stale
  IsTimely-recover_open j true = search timely_rules
  IsTimely-recover_open j false = search (timely_rules, IsTimely-drive)

  IsTimely-recover_journal : (j : Option JournalEntry) → IsTimely (recover_journal fx j)
  unfolding recover_journal
  IsTimely-recover_journal none = search timely_rules
  IsTimely-recover_journal (some j) = search (timely_rules, IsTimely-recover_open)

  IsTimely-recover : IsTimely (recover fx)
  unfolding recover
  IsTimely-recover = search (timely_rules, IsTimely-recover_journal)

  -- Whatever the effects answer and whoever else uses the agent, `run` and `recover` do not end by
  -- throwing the timeout of an effect.
  pub run_operation-ends_in_time :
      (op : ApplyOperation) (s : Runner W)
      → ((run_operation fx op s).1 ≢ thrown timed_out) × ((recover fx s).1 ≢ thrown timed_out)
  run_operation-ends_in_time op s = ((IsTimely-run_operation op).ends s, IsTimely-recover.ends s)
