-- ===== src/Dp/Agent/Journal.antt =====
-- src/dp/agent.ts, the operations on the journal and on the right to apply: the compare-and-set of
-- the journal, and the ways to close it and to give the right back. Each is the body that `serial`
-- runs; a read is a function of the state.
use barycenter.Prelude.{
  ℕ, Bool, true, false, not, ◌&&◌, Option, none, some, List, [], ◌∷◌, ◌==◌, if◌then◌else◌, is_some,
  ltb, ◌+◌,
}
use barycenter.Dp.Operation.{
  Plane, at, PerPlane, ApplyOperation, ApplyPhase, is_terminal_phase, planes_of, PublishRecord,
}
use barycenter.Dp.Agent.State.{
  operation_in_flight, not_reserved, journal_conflict, stale_leader, Result, ok, ◌>>=◌, ◌>>◌,
  reject_if, JournalEntry, AgentState,
}
use barycenter.Dp.Agent.Identity.{op_author, owns_journal, tuple_for, authored_by}
use barycenter.Dp.Agent.Rules.{assert_leader, release_own_slot, delete_slot}
use barycenter.Dp.Agent.Settle.{
  epochs_of, planes_of_operation, drop_own_slots, clear_holder, finalize_candidate,
}
use barycenter.Dp.Agent.Opening.{holder_of, seq_of, holder_is_op}

unfoldable pub close_journal : AgentState → ApplyOperation → ApplyPhase → AgentState
unfolding owns_journal
close_journal s op how = elim s.journal [
  | none ↦ s
  | some j ↦
      if owns_journal (some j) op && not (is_terminal_phase j.phase)
      then record s { journal = some (record j { phase = how; seq = j.seq + 1 }) }
      else s
]

unfoldable pub write_journal : AgentState → JournalEntry → Result AgentState
unfolding assert_leader
write_journal s entry = do
  assert_leader s entry.op.leader_token
  reject_if (not (holder_is_op s.active_operation entry.op)) not_reserved
  reject_if (not (entry.seq == seq_of s.journal + 1)) journal_conflict
  ok (record s { journal = some entry })

unfoldable pub drop_all_slots : AgentState → PerPlane (Option ℕ) → List Plane → AgentState
unfolding delete_slot
drop_all_slots s epochs [] = s
drop_all_slots s epochs (p ∷ ps) =
    drop_all_slots (elim (at epochs p) [ none ↦ s | some epoch ↦ delete_slot s p epoch ]) epochs ps

-- The right to apply without a journal is given back.
unfoldable pub release_idle_holder : AgentState → AgentState × Bool
release_idle_holder s = elim s.active_operation [
  | none ↦ (s, false)
  | some holder ↦
      if is_some s.journal
      then (s, false)
      else (record (drop_all_slots s holder.epochs holder.planes) { active_operation = none }, true)
]

unfoldable pub reclaim_operation : AgentState → ApplyOperation → Result (AgentState × Bool)
unfolding assert_leader planes_of_operation epochs_of
reclaim_operation s op = elim s.active_operation [
  | some holder ↦ ok (s, false)
  | none ↦ do
    assert_leader s op.leader_token
    let holder = holder_of op (planes_of_operation op) (epochs_of op)
    ok (record s { active_operation = some holder }, true)
]

unfoldable pub release_stale_slots : AgentState → ApplyOperation → AgentState
release_stale_slots s op = elim s.active_operation [
  | some holder ↦ s
  | none ↦ drop_own_slots s (op_author op) (epochs_of op) (planes_of_operation op)
]

-- The slots of all the planes that the holder has declared, if the holder is the operation.
unfoldable pub release_holder_slots : AgentState → ApplyOperation → AgentState
release_holder_slots s op = elim s.active_operation [
  | none ↦ s
  | some holder ↦
      if holder.operation_id == op.operation_id
        && holder.transition_id == op.transition_id
        && holder.leader_token == op.leader_token
      then record (drop_own_slots s (op_author op) holder.epochs holder.planes) {
        active_operation = none;
      }
      else s
]

unfoldable pub release_planes : AgentState → ApplyOperation → List Plane → Result AgentState
unfolding tuple_for release_own_slot
release_planes s op [] = ok s
release_planes s op (p ∷ ps) = do t ← tuple_for op p; release_planes (release_own_slot s t) op ps

unfoldable pub finish_operation : AgentState → ApplyOperation → List Plane → Result AgentState
unfolding finalize_candidate release_planes clear_holder
finish_operation s op planes = do
  s' ← release_planes (finalize_candidate s (op_author op)) op planes
  ok (clear_holder s' (op_author op))

unfoldable pub assert_ownership : AgentState → ApplyOperation → Result (Unit {0})
assert_ownership s op = do
  reject_if (ltb op.leader_token s.max_leader_token) stale_leader
  reject_if (not (is_some s.active_operation)) not_reserved
  reject_if (not (holder_is_op s.active_operation op)) operation_in_flight

unfoldable pub record_publish_intent : AgentState → PublishRecord → Result AgentState
unfolding assert_leader
record_publish_intent s r = do
  assert_leader s r.leader_token
  ok (record s { last_publish_intent = some r })

unfoldable pub moved_by_me : AgentState → ApplyOperation → Plane → Result Bool
unfolding tuple_for authored_by
moved_by_me s op plane = do
  t ← tuple_for op plane
  let current = at s.planes plane
  ok (
      current.coordinate.activation_epoch == t.target.activation_epoch
      && authored_by current (op_author op))

unfoldable pub count_moved : AgentState → ApplyOperation → List Plane → Result ℕ
unfolding moved_by_me
count_moved s op [] = ok 0
count_moved s op (p ∷ ps) = do
  moved ← moved_by_me s op p
  n ← count_moved s op ps
  ok (if moved then n + 1 else n)

abbrev pub length : {A : Type 0} → List A → ℕ
length [] = 0
length (x ∷ xs) = length xs + 1

-- How far the journal's operation went, by the coordinates alone.
unfoldable pub reached_phase : AgentState → Result (Option ApplyPhase)
unfolding count_moved planes_of
reached_phase s = elim s.journal [
  | none ↦ ok none
  | some j ↦ do
    moved ← count_moved s j.op (planes_of j.op)
    ok (
        some (
          if moved == length (planes_of j.op)
          then ApplyPhase.activated
          else if moved == 0
          then ApplyPhase.failed
          else ApplyPhase.partial_exhausted))
]
