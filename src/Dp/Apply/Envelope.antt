-- ===== src/Dp/Apply/Envelope.antt =====
-- src/dp/apply.ts, the functions on values: the checks of an envelope, the next journal entry, the
-- publish record and the result of an operation.
use barycenter.Prelude.{
  Bool, true, false, not, ◌&&◌, ◌||◌, Option, none, some, List, [], ◌∷◌, ◌+◌, if◌then◌else◌,
  is_some,
}
use barycenter.Dp.Operation.{
  Plane, http, stream, plane_eq, at, put, both, PerPlane, ApplyOperation, PlaneProgress, committed,
  PublishRecord, ApplyPhase, ApplyResult, planes_of,
}
use barycenter.Dp.Agent.State.{
  Result, ok, ◌>>◌, reject_if, empty_envelope, envelope_mismatch, JournalEntry,
}

abbrev pub plane_in : Plane → List Plane → Bool
plane_in p [] = false
plane_in p (q ∷ qs) = plane_eq q p || plane_in p qs

abbrev pub is_empty : {A : Type 0} → List A → Bool
is_empty [] = true
is_empty (x ∷ xs) = false

-- Both planes are declared, each declared one has a target, and each target is declared.
unfoldable pub assert_envelope : ApplyOperation → Result (Unit {0})
assert_envelope op = do
  reject_if (is_empty op.affected_planes) empty_envelope
  reject_if (not (plane_in http op.affected_planes)) envelope_mismatch
  reject_if (not (plane_in stream op.affected_planes)) envelope_mismatch
  declared_are_carried op.affected_planes
  carried_is_declared http
  carried_is_declared stream
  where
    declared_are_carried : List Plane → Result (Unit {0})
    declared_are_carried [] = ok tt
    declared_are_carried (p ∷ ps) = do
      reject_if (not (is_some (at op.planes p))) envelope_mismatch
      declared_are_carried ps

    carried_is_declared : Plane → Result (Unit {0})
    carried_is_declared p =
        reject_if (is_some (at op.planes p) && not (plane_in p op.affected_planes))
          envelope_mismatch

-- `next(j, over)`, where `over` is what the argument makes of the entry.
abbrev pub next : JournalEntry → (JournalEntry → JournalEntry) → JournalEntry
next j over = record (over j) { seq = j.seq + 1 }

abbrev pub in_phase : ApplyPhase → JournalEntry → JournalEntry
in_phase phase j = record j { phase = phase }

unfoldable pub record_of : ApplyOperation → PublishRecord
record_of op = record {
  generation = op.target_generation;
  leader_token = op.leader_token;
  operation_id = op.operation_id;
  transition_id = op.transition_id;
  generation_digest = op.generation_digest;
}

abbrev pub put_all : {A : Type 0} → List Plane → A → PerPlane (Option A) → PerPlane (Option A)
put_all [] a r = r
put_all (p ∷ ps) a r = put_all ps a (put r p (some a))

unfoldable pub progress_of : ApplyOperation → PlaneProgress → PerPlane (Option PlaneProgress)
progress_of op now = put_all (planes_of op) now (both none)

unfoldable pub empty_result : ApplyResult
empty_result = record {
  phase = ApplyPhase.no_operation;
  progress = both none;
  partial_transition = false;
  evidence = none;
  failure = none;
}

abbrev is_partial : ApplyPhase → Bool
is_partial ApplyPhase.partially_activated = true
is_partial ApplyPhase.partial_exhausted = true
is_partial _ = false

unfoldable pub result_of : JournalEntry → ApplyResult
result_of j = record {
  phase = j.phase;
  progress = j.progress;
  partial_transition = is_partial j.phase;
  evidence = j.evidence;
  failure = j.failure;
}

abbrev pub is_committed : Option PlaneProgress → Bool
is_committed (some committed) = true
is_committed _ = false

-- The planes whose progress is not `committed`, and those whose progress is.
unfoldable pub stuck_planes : PerPlane (Option PlaneProgress) → List Plane → List Plane
stuck_planes progress [] = []
stuck_planes progress (p ∷ ps) =
    let rest = stuck_planes progress ps in if is_committed (at progress p) then rest else p ∷ rest

unfoldable pub committed_planes : PerPlane (Option PlaneProgress) → List Plane → List Plane
committed_planes progress [] = []
committed_planes progress (p ∷ ps) =
    let rest = committed_planes progress ps in
    if is_committed (at progress p) then p ∷ rest else rest
