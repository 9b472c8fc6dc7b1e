-- ===== src/Dp/Agent/Rules.antt =====
-- src/dp/agent.ts, the rules that the agent's operations share: admission, ownership of a slot,
-- the end of a transition, and the candidate for the last activation. A function that changes the
-- state `s` returns the new one; a rejection leaves the caller with the state it had.
use barycenter.Prelude.{
  ℕ, Bool, true, false, not, Option, none, some, ltb, leb, ◌==◌, if◌then◌else◌, nat_eq, lookup,
  insert, erase,
}
use barycenter.Dp.Operation.{Plane, at, put}
use barycenter.Dp.Agent.State.{
  PlaneAuthor, PlaneState, OperationTuple, PlaneAck, TerminalKind, stale_leader, slot_taken,
  tuple_mismatch, digest_mismatch, coordinate_mismatch, epoch_not_monotonic, terminal, Result, ok,
  err, ◌>>=◌, ◌>>◌, reject_if, Reservation, StepName, terminal_keys, completed_keys, Completed,
  AgentState,
}
use barycenter.Dp.Agent.Identity.{
  same_coordinate, same_tuple, tuple_author, slot_at, transition_key, completed_key, terminal_of,
}

unfoldable pub set_slot : AgentState → Plane → ℕ → Reservation → AgentState
set_slot s plane epoch slot = record s {
  reservations = put s.reservations plane (insert epoch slot (at s.reservations plane));
}

unfoldable pub delete_slot : AgentState → Plane → ℕ → AgentState
delete_slot s plane epoch = record s {
  reservations = put s.reservations plane (erase epoch (at s.reservations plane));
}

unfoldable pub assert_leader : AgentState → ℕ → Result (Unit {0})
assert_leader s token = reject_if (ltb token s.max_leader_token) stale_leader

abbrev pub max_token : ℕ → ℕ → ℕ
max_token a b = if ltb a b then b else a

abbrev pub raise_token : AgentState → ℕ → AgentState
raise_token s token = record s { max_leader_token = max_token s.max_leader_token token }

-- An answered step is answered again; a transition that has failed or was given up is over.
unfoldable pub judge :
    Option TerminalKind → Option Completed → OperationTuple → Result (Option PlaneAck)
judge (some TerminalKind.aborted) seen op = err (terminal TerminalKind.aborted)
judge (some TerminalKind.failed) seen op = err (terminal TerminalKind.failed)
judge (some TerminalKind.activated) none op = err (terminal TerminalKind.activated)
judge none none op = ok none
judge _ (some seen) op =
    if same_tuple seen.tuple op
    then ok (some (record seen.ack { cached = true }))
    else if seen.payload_digest == op.payload_digest
    then err tuple_mismatch
    else err digest_mismatch

unfoldable pub admit :
    AgentState → OperationTuple → StepName → Result (AgentState × Option PlaneAck)
unfolding judge assert_leader
admit s op step = do
  assert_leader s op.leader_token
  let s' = raise_token s op.leader_token
  replay ←
      judge (terminal_of s' (tuple_author op) op.plane)
        (lookup (completed_key op step) s'.completed) op
  ok (s', replay)

unfoldable pub record_step :
    AgentState → OperationTuple → StepName → PlaneState → AgentState × PlaneAck
record_step s op step result =
    let ack = record_ack in
    (record s { completed = insert (completed_key op step) (entry ack) s.completed }, ack)
  where
    record_ack : PlaneAck
    record_ack = record {
      state = result;
      plane = op.plane;
      transition_id = op.transition_id;
      cached = false;
    }

    entry : PlaneAck → Completed
    entry ack = record {
      tuple = op;
      payload_digest = op.payload_digest;
      ack = ack;
      transition = some (tuple_author op);
    }

abbrev pub target_state : OperationTuple → Option PlaneAuthor → PlaneState
target_state op by = record { coordinate = op.target; payload_digest = op.payload_digest; by = by }

unfoldable pub owns_slot : AgentState → OperationTuple → Bool
owns_slot s op = elim (slot_at s op.plane op.target.activation_epoch) [
  | none ↦ false
  | some slot ↦ same_tuple slot.op op
]

unfoldable pub acquire_new : AgentState → OperationTuple → Result (AgentState × Reservation)
unfolding set_slot
acquire_new s op = do
  let current = (at s.planes op.plane).coordinate
  let slot = fresh
  reject_if (not (same_coordinate current op.expected_current)) coordinate_mismatch
  reject_if (leb op.target.activation_epoch current.activation_epoch) epoch_not_monotonic
  ok (set_slot s op.plane op.target.activation_epoch slot, slot)
  where
    fresh : Reservation
    fresh = record { op = op; staged_digest = none }

unfoldable pub acquire : AgentState → OperationTuple → Result (AgentState × Reservation)
acquire s op = elim (slot_at s op.plane op.target.activation_epoch) [
  | some existing ↦ if same_tuple existing.op op then ok (s, existing) else err slot_taken
  | none ↦ acquire_new s op
]

-- `delete s.reservations[plane][epoch]` if the slot there is this tuple's.
unfoldable pub release_own_slot : AgentState → OperationTuple → AgentState
unfolding delete_slot owns_slot
release_own_slot s op =
    if owns_slot s op then delete_slot s op.plane op.target.activation_epoch else s

unfoldable pub finish : AgentState → OperationTuple → TerminalKind → AgentState
unfolding release_own_slot
finish s op how =
    let s' = release_own_slot s op in
    record s' {
      terminal = insert (transition_key op) how s'.terminal;
      terminal_at =
          insert (transition_key op)
            (record { plane = op.plane; epoch = op.target.activation_epoch }) s'.terminal_at;
    }

abbrev pub same_kind : TerminalKind → TerminalKind → Bool
same_kind TerminalKind.activated TerminalKind.activated = true
same_kind TerminalKind.failed TerminalKind.failed = true
same_kind TerminalKind.aborted TerminalKind.aborted = true
same_kind _ _ = false

unfoldable pub finalize : AgentState → OperationTuple → TerminalKind → Result AgentState
unfolding assert_leader
finalize s op how = do
  assert_leader s op.leader_token
  let s' = raise_token s op.leader_token
  elim (terminal_of s' (tuple_author op) op.plane) [
    | none ↦ ok (finish s' op how)
    | some already ↦ if same_kind already how then ok s' else err (terminal already)
  ]
