-- ===== src/Dp/Apply/Whole.antt =====
-- The runner keeps what its primitive steps keep: the parts that the phases share.
use barycenter.Prelude.{ℕ, zero, suc, Bool, true, false, Option, none, some, List, [], ◌∷◌}
use barycenter.Dp.Operation.{
  Name, Plane, PerPlane, ApplyOperation, PlaneProgress, ActivationEvidence, ApplyPhase,
}
use barycenter.Dp.Agent.State.{JournalEntry, journal_conflict}
use barycenter.Dp.Apply.Monad.{
  Effects, Runner, Thrown, rejection, Reason, Run, ignore_conflict, ignore_rejection,
  unless_conflict, unless_rejection,
}
use barycenter.Dp.Apply.Steps.{
  push_phase, write, write_on, observe_read, observe, await_activation, assert_owner, fail_plane_of,
  fail_planes, fail_all,
}
use barycenter.Dp.Apply.Reload.{note_evidence, note_activation}
use barycenter.Dp.Apply.Stable.{
  Keeps, IsStable, Keeps-pure, Keeps-throw, Keeps-bind, Keeps-then, Keeps-try, Keeps-lift, Keeps-if,
  Keeps-read, Keeps-budget, Keeps-call,
}

pub ruleset keeps_rules = (
  Keeps-pure, Keeps-throw, Keeps-bind, Keeps-then, Keeps-try, Keeps-lift, Keeps-if, Keeps-read,
  Keeps-budget, Keeps-call,
)

module _ {W : Type 0} {fx : Effects W} {R : Runner W → Runner W → Type 0}
    (stable : IsStable fx R) where
  Keeps-unless_conflict : (e : Thrown) → Keeps R (unless_conflict fx e)
  Keeps-unless_conflict (rejection journal_conflict) = search keeps_rules
  Keeps-unless_conflict e = search keeps_rules

  Keeps-unless_rejection : (e : Thrown) → Keeps R (unless_rejection fx e)
  Keeps-unless_rejection (rejection e) = search keeps_rules
  Keeps-unless_rejection e = search keeps_rules

  Keeps-ignore_conflict : {m : Run W (Unit {0})} → Keeps R m → Keeps R (ignore_conflict fx m)
  unfolding ignore_conflict
  Keeps-ignore_conflict h = Keeps-try stable h Keeps-unless_conflict

  Keeps-ignore_rejection : {m : Run W (Unit {0})} → Keeps R m → Keeps R (ignore_rejection fx m)
  unfolding ignore_rejection
  Keeps-ignore_rejection h = Keeps-try stable h Keeps-unless_rejection

  Keeps-push_phase : (p : ApplyPhase) → Keeps R (push_phase fx p)
  unfolding push_phase
  Keeps-push_phase p = record { kept = λ s. stable.of_history s _ }

  pub Keeps-write : (entry : JournalEntry) → Keeps R (write fx entry)
  unfolding write
  Keeps-write entry = search (keeps_rules, Keeps-push_phase)

  pub Keeps-write_on : (entry : JournalEntry) → Keeps R (write_on fx entry)
  unfolding write_on
  Keeps-write_on entry = Keeps-ignore_conflict (Keeps-write entry)

  pub Keeps-observe_read : Keeps R (observe_read fx)
  unfolding observe_read
  Keeps-observe_read = search keeps_rules

  Keeps-observe : Keeps R (observe fx)
  unfolding observe
  Keeps-observe = search (keeps_rules, Keeps-observe_read)

  pub Keeps-await_activation :
      (attempts : ℕ) (target : Name) (last : Option ActivationEvidence)
      → Keeps R (await_activation fx attempts target last)
  unfolding await_activation
  Keeps-await_activation zero target last = search keeps_rules
  Keeps-await_activation (suc attempts) target last =
      search (keeps_rules, Keeps-observe, Keeps-await_activation attempts target)

  pub Keeps-assert_owner : (op : ApplyOperation) → Keeps R (assert_owner fx op)
  unfolding assert_owner
  Keeps-assert_owner op = search keeps_rules

  Keeps-fail_plane_of :
      (op : ApplyOperation) (p : Plane) (moved : Bool) → Keeps R (fail_plane_of fx op p moved)
  unfolding fail_plane_of
  Keeps-fail_plane_of op p true = search keeps_rules
  Keeps-fail_plane_of op p false = search (keeps_rules, Keeps-ignore_rejection)

  Keeps-fail_planes :
      (op : ApplyOperation) (ps : List Plane) (progress : PerPlane (Option PlaneProgress))
      → Keeps R (fail_planes fx op ps progress)
  unfolding fail_planes
  Keeps-fail_planes op [] progress = search keeps_rules
  Keeps-fail_planes op (p ∷ ps) progress =
      search (keeps_rules, Keeps-fail_plane_of, Keeps-fail_planes op ps)

  pub Keeps-fail_all : (j : JournalEntry) (reason : Reason) → Keeps R (fail_all fx j reason)
  unfolding fail_all
  Keeps-fail_all j reason = search (keeps_rules, Keeps-fail_planes, Keeps-write_on)

  Keeps-note_evidence :
      (op : ApplyOperation) (e : ActivationEvidence) (now : Option JournalEntry)
      → Keeps R (note_evidence fx op e now)
  unfolding note_evidence
  Keeps-note_evidence op e none = search keeps_rules
  Keeps-note_evidence op e (some now) = search (keeps_rules, Keeps-write_on)

  pub Keeps-note_activation :
      (op : ApplyOperation) (e : Option ActivationEvidence) → Keeps R (note_activation fx op e)
  unfolding note_activation
  Keeps-note_activation op none = search keeps_rules
  Keeps-note_activation op (some e) = search (keeps_rules, Keeps-note_evidence)
