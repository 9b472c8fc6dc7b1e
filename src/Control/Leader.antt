-- ===== src/Control/Leader.antt =====
-- src/control/leader.ts: what an instance knows of its own leadership. A session of the lock is the
-- store's; here it is the token that it was given and the time. The source's awaits are the
-- places where other events may come, so that a method is one event for each stretch between them.
pub mod Office
pub mod Tests
use barycenter.Prelude.{
  ℕ, ◌≡◌, refl, Bool, true, false, not, ◌&&◌, Option, none, some, List, [], ◌∷◌, is_some,
  if◌then◌else◌,
}
use barycenter.Dp.Operation.{Name}

pub record LeaderSession : Type 0 where
  pub token : ℕ
  pub since : ℕ

-- Why the instance is not the leader; the wording of the three fixed reasons is left out.
pub data Reason : Type 0 where
  not_tried not_leader stepped_down : Reason
  told : Name → Reason

pub data LossKind : Type 0 where
  by_error by_end : LossKind

pub record Loss : Type 0 where
  pub kind : LossKind
  pub reason : Name

pub data LeaderAttempt : Type 0 where
  refused : Name → LeaderAttempt
  granted : LeaderSession → List Loss → LeaderAttempt

pub record LeaderElection : Type 0 where
  pub session : Option LeaderSession
  pub token : Option ℕ
  pub since : Option ℕ
  pub reason : Option Reason
  pub lost : Bool

pub record Leadership : Type 0 where
  pub is_leader : Bool
  pub token : Option ℕ
  pub since : Option ℕ
  pub reason : Option Reason

abbrev pub fresh : LeaderElection
fresh = record { session = none; token = none; since = none; reason = some not_tried; lost = false }

abbrev pub holds : LeaderElection → Bool
holds s = is_some s.session && not s.lost

abbrev or_told : Name → Option Reason → Option Reason
or_told n none = some (told n)
or_told n (some r) = some r

-- The listener of `onLost`: an error's reason goes before that of the end.
abbrev pub on_lost : Loss → LeaderElection → LeaderElection
on_lost l s = elim l.kind [
  | by_error ↦ record s { lost = true; reason = some (told l.reason) }
  | by_end ↦ record s { lost = true; reason = or_told l.reason s.reason }
]

abbrev pub after_losses : List Loss → LeaderElection → LeaderElection
after_losses [] s = s
after_losses (l ∷ ls) s = after_losses ls (on_lost l s)

-- The answer of the lock to `tryAcquire`. The losses that the session has seen before anyone listened
-- to it are told while the listener is added.
unfoldable pub answer : LeaderAttempt → LeaderElection → LeaderElection × Bool
answer (refused why) s = (record s { reason = some (told why) }, false)
answer (granted session early) s = (
  record (after_losses early s) {
    session = some session;
    token = some session.token;
    since = some session.since;
    reason = none;
    lost = false;
  },
  true,
)

-- `tryAcquire`, whose question to the lock is answered by `attempt`.
unfoldable pub try_acquire : LeaderAttempt → LeaderElection → LeaderElection × Bool
try_acquire attempt s = if holds s then (s, true) else answer attempt s

abbrev or_not_leader : Option Reason → Reason
or_not_leader none = not_leader
or_not_leader (some r) = r

unfoldable pub state : LeaderElection → Leadership
state s = record {
  is_leader = holds s;
  token = if holds s then s.token else none;
  since = if holds s then s.since else none;
  reason = if holds s then none else some (or_not_leader s.reason);
}

pub data Asserted : Type 0 where
  leads : ℕ → Asserted
  throws : Reason → Asserted

abbrev asserted : Leadership → Option ℕ → Asserted
asserted l none = throws (or_not_leader l.reason)
asserted l (some t) = if l.is_leader then leads t else throws (or_not_leader l.reason)

unfoldable pub assert_leader : LeaderElection → Asserted
assert_leader s = asserted (state s) (state s).token

-- `release` before it waits for the session's end, and after.
abbrev pub step_down : LeaderElection → LeaderElection
step_down s = record s { session = none }

abbrev pub stepped : LeaderElection → LeaderElection
stepped s = record s { token = none; reason = some stepped_down }

-- What happens to an election: each constructor is a stretch of a method that runs alone. A call
-- that was asked for when the instance led nothing may be answered at any time.
pub data Happens : LeaderElection → LeaderElection → Type 0 where
  answered : (a : LeaderAttempt) (s : LeaderElection) → Happens s (answer a s).0
  loses : (l : Loss) (s : LeaderElection) → Happens s (on_lost l s)
  begins_release : (s : LeaderElection) → Happens s (step_down s)
  ends_release : (s : LeaderElection) → Happens s (stepped s)

-- The events in which no session is granted.
pub data IsQuiet : (s : LeaderElection) (t : LeaderElection) → Happens s t → Type 0 where
  refusal :
      (why : Name) (s : LeaderElection)
      → IsQuiet s (answer (refused why) s).0 (answered (refused why) s)
  loss : (l : Loss) (s : LeaderElection) → IsQuiet s (on_lost l s) (loses l s)
  releasing : (s : LeaderElection) → IsQuiet s (step_down s) (begins_release s)
  release_over : (s : LeaderElection) → IsQuiet s (stepped s) (ends_release s)

pub data Reaches : LeaderElection → LeaderElection → Type 0 where
  stays : (s : LeaderElection) → Reaches s s
  goes : (s t u : LeaderElection) → Happens s t → Reaches t u → Reaches s u

-- A history in which no session is granted.
pub data Quietly : LeaderElection → LeaderElection → Type 0 where
  at_rest : (s : LeaderElection) → Quietly s s
  moves : (s t u : LeaderElection) (h : Happens s t) → IsQuiet s t h → Quietly t u → Quietly s u
