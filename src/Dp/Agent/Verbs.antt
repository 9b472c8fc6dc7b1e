-- ===== src/Dp/Agent/Verbs.antt =====
-- src/dp/agent.ts, the operations on one plane: reserve, stage, commit, abort, release, fail,
-- applyHealth, and fence. Each is the body that `serial` runs on the state that it has loaded. The
-- payloads of stage and applyHealth are unused in the source, and left out.
use barycenter.Prelude.{
  ℕ, Bool, not, ◌&&◌, Option, none, some, ltb, leb, ◌==◌, if◌then◌else◌, is_some, insert, erase,
}
use barycenter.Dp.Operation.{at, put, ActivationEvidence, proves_activation, PublishRecord}
use barycenter.Dp.Agent.State.{
  PlaneState, OperationTuple, PlaneAck, TerminalKind, slot_taken, digest_mismatch,
  coordinate_mismatch, epoch_not_monotonic, not_staged, not_activated, Result, ok, err, ◌>>=◌, ◌>>◌,
  reject_if, Reservation, StepName, completed_keys, position_keys, AgentState, same_identity,
}
use barycenter.Dp.Agent.Identity.{
  same_coordinate, same_tuple, tuple_author, holder_author, authored_by, slot_at, completed_key,
  terminal_of,
}
use barycenter.Dp.Agent.Rules.{
  set_slot, assert_leader, admit, record_step, target_state, acquire, release_own_slot, finish,
  finalize,
}
use barycenter.Dp.Agent.Settle.{supersede}

-- `if (replay !== undefined) return replay`, then the rest on the admitted state.
abbrev pub unless_replayed :
    Option PlaneAck → AgentState → Result (AgentState × PlaneAck) → Result (AgentState × PlaneAck)
unless_replayed (some ack) s rest = ok (s, ack)
unless_replayed none s rest = rest

unfoldable pub reserve_admitted : AgentState → OperationTuple → Result (AgentState × PlaneAck)
reserve_admitted s op = do
  (s', slot) ← acquire s op
  ok (record_step s' op StepName.reserve (target_state op none))

unfoldable pub reserve : AgentState → OperationTuple → Result (AgentState × PlaneAck)
reserve s op = do
  (s', replay) ← admit s op StepName.reserve
  unless_replayed replay s' (reserve_admitted s' op)

unfoldable pub stage_admitted : AgentState → OperationTuple → Result (AgentState × PlaneAck)
stage_admitted s op = do
  (s', slot) ← acquire s op
  let staged = record slot { staged_digest = some op.payload_digest }
  let s2 = set_slot s' op.plane op.target.activation_epoch staged
  ok (record_step s2 op StepName.stage (target_state op none))

unfoldable pub stage : AgentState → OperationTuple → Result (AgentState × PlaneAck)
stage s op = do
  (s', replay) ← admit s op StepName.stage
  unless_replayed replay s' (stage_admitted s' op)

-- The checks of a commit on its slot, in the source's order.
unfoldable pub check_slot :
    Option Reservation → PlaneState → OperationTuple → ActivationEvidence → Result (Unit {0})
unfolding same_tuple proves_activation
check_slot none current op evidence = err not_staged
check_slot (some slot) current op evidence = do
  reject_if (not (same_tuple slot.op op)) slot_taken
  reject_if (not (same_coordinate current.coordinate op.expected_current)) coordinate_mismatch
  digest_check slot.staged_digest
  reject_if (not (proves_activation (some evidence) op.target_generation)) not_activated
  where
    digest_check : Option ℕ → Result (Unit {0})
    digest_check none = err not_staged
    digest_check (some digest) = reject_if (not (digest == op.payload_digest)) digest_mismatch

-- The plane's coordinate moves, with its author; the evidence is kept under the new position.
unfoldable pub move_plane : AgentState → OperationTuple → ActivationEvidence → AgentState
move_plane s op evidence = record s {
  planes = put s.planes op.plane (target_state op (some (tuple_author op)));
  activation_evidence =
      insert (record { plane = op.plane; epoch = op.target.activation_epoch }) evidence
        s.activation_evidence;
}

-- The epochs that the holder has declared go with the candidate if the holder is the committer.
unfoldable pub propose : AgentState → OperationTuple → AgentState
propose s op = record s {
  pending_epochs = elim s.active_operation [
    | none ↦ s.pending_epochs
    | some holder ↦
        if same_identity (holder_author holder) (tuple_author op)
        then some holder.epochs
        else s.pending_epochs
  ];
  pending_activation = some candidate;
}
  where
    candidate : PublishRecord
    candidate = record {
      generation = op.target_generation;
      leader_token = op.leader_token;
      operation_id = op.operation_id;
      transition_id = op.transition_id;
      generation_digest = op.generation_digest;
    }

unfoldable pub already_there : AgentState → OperationTuple → Bool
unfolding authored_by
already_there s op =
    same_coordinate (at s.planes op.plane).coordinate op.target
    && (at s.planes op.plane).payload_digest == op.payload_digest
    && authored_by (at s.planes op.plane) (tuple_author op)

unfoldable pub commit_new :
    AgentState → OperationTuple → ActivationEvidence → Result (AgentState × PlaneAck)
commit_new s op evidence = do
  check_slot (slot_at s op.plane op.target.activation_epoch) (at s.planes op.plane) op evidence
  let s1 = propose (move_plane s op evidence) op
  let s2 = finish s1 op TerminalKind.activated
  ok (record_step s2 op StepName.commit (at s2.planes op.plane))

unfoldable pub commit_admitted :
    AgentState → OperationTuple → ActivationEvidence → Result (AgentState × PlaneAck)
commit_admitted s op evidence =
    if already_there s op
    then ok (record_step s op StepName.commit (at s.planes op.plane))
    else commit_new s op evidence

unfoldable pub commit :
    AgentState → OperationTuple → ActivationEvidence → Result (AgentState × PlaneAck)
commit s op evidence = do
  (s', replay) ← admit s op StepName.commit
  unless_replayed replay s' (commit_admitted s' op evidence)

unfoldable pub abort : AgentState → OperationTuple → Result AgentState
unfolding finalize
abort s op = finalize s op TerminalKind.aborted

unfoldable pub fail : AgentState → OperationTuple → Result AgentState
unfolding finalize
fail s op = finalize s op TerminalKind.failed

abbrev pub forget_steps : AgentState → OperationTuple → AgentState
forget_steps s op = record s {
  completed = erase (completed_key op StepName.health) (
      erase (completed_key op StepName.commit) (
        erase (completed_key op StepName.stage)
          (erase (completed_key op StepName.reserve) s.completed)));
}

unfoldable pub release : AgentState → OperationTuple → Result AgentState
unfolding assert_leader
release s op = do
  assert_leader s op.leader_token
  let over = is_some (terminal_of s (tuple_author op) op.plane)
  ok (if over then s else forget_steps (release_own_slot s op) op)

unfoldable pub apply_health_admitted : AgentState → OperationTuple → Result (AgentState × PlaneAck)
apply_health_admitted s op = do
  let current = at s.planes op.plane
  let epoch = current.coordinate.activation_epoch
  let moved = target_state op current.by
  reject_if
      (not (
        same_coordinate current.coordinate op.expected_current
        && op.target.activation_epoch == epoch))
      coordinate_mismatch
  reject_if (leb op.target.membership_revision current.coordinate.membership_revision)
      epoch_not_monotonic
  ok (record_step (record s { planes = put s.planes op.plane moved }) op StepName.health moved)

unfoldable pub apply_health : AgentState → OperationTuple → Result (AgentState × PlaneAck)
apply_health s op = do
  (s', replay) ← admit s op StepName.health
  unless_replayed replay s' (apply_health_admitted s' op)

-- A holder with a lower token than the new one loses the right to apply.
unfoldable pub fence_holder : AgentState → ℕ → AgentState
fence_holder s token = elim s.active_operation [
  | none ↦ s
  | some holder ↦ if ltb holder.leader_token token then supersede s holder else s
]

abbrev pub set_token : AgentState → ℕ → AgentState
set_token s token = record s { max_leader_token = token }

unfoldable pub fence : AgentState → ℕ → Result (AgentState × ℕ)
unfolding assert_leader
fence s token = do
  assert_leader s token
  let s' = fence_holder (set_token s token) token
  ok (s', s'.max_leader_token)
