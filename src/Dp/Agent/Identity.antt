-- ===== src/Dp/Agent/Identity.antt =====
-- src/dp/agent.ts, the comparisons of identity: which transition a slot, a journal, a coordinate or
-- a record belongs to, and the tuples of an operation's planes.
use barycenter.Prelude.{
  ℕ, ◌≡◌, ◌↔◌, Bool, true, false, ◌&&◌, Option, none, some, List, [], ◌∷◌, arith, ◌==◌, nat_eq,
  lookup,
}
use barycenter.Dp.Operation.{
  Plane, plane_eq, at, Coordinate, PlaneTarget, ApplyOperation, PublishRecord,
}
use barycenter.Dp.Agent.State.{
  PlaneAuthor, PlaneState, OperationTuple, TerminalKind, envelope_mismatch, Result, ok, err, ◌>>=◌,
  Reservation, ActiveOperation, JournalEntry, StepName, TerminalKey, of_transition, of_legacy,
  terminal_keys, CompletedKey, AgentState, same_identity,
}

abbrev pub same_coordinate : Coordinate → Coordinate → Bool
same_coordinate a b =
    a.activation_epoch == b.activation_epoch && a.membership_revision == b.membership_revision

-- `canonical(a) === canonical(b)`.
unfoldable pub same_tuple : OperationTuple → OperationTuple → Bool
same_tuple a b =
    a.leader_token == b.leader_token
    && a.operation_id == b.operation_id
    && a.transition_id == b.transition_id
    && plane_eq a.plane b.plane
    && same_coordinate a.expected_current b.expected_current
    && same_coordinate a.target b.target
    && a.payload_digest == b.payload_digest
    && a.target_generation == b.target_generation
    && a.generation_digest == b.generation_digest

pub same_tuple_iff : (a b : OperationTuple) → (same_tuple a b ≡ true) ↔ (a ≡ b)
unfolding same_tuple
same_tuple_iff a b = (λ h. ground arith, λ h. ground arith)

-- The parts of the records that name a transition.
abbrev pub tuple_author : OperationTuple → PlaneAuthor
tuple_author t = record {
  operation_id = t.operation_id;
  transition_id = t.transition_id;
  leader_token = t.leader_token;
}

abbrev pub op_author : ApplyOperation → PlaneAuthor
op_author t = record {
  operation_id = t.operation_id;
  transition_id = t.transition_id;
  leader_token = t.leader_token;
}

abbrev pub holder_author : ActiveOperation → PlaneAuthor
holder_author t = record {
  operation_id = t.operation_id;
  transition_id = t.transition_id;
  leader_token = t.leader_token;
}

abbrev pub record_author : PublishRecord → PlaneAuthor
record_author t = record {
  operation_id = t.operation_id;
  transition_id = t.transition_id;
  leader_token = t.leader_token;
}

abbrev pub same_transition_name : PlaneAuthor → PlaneAuthor → Bool
same_transition_name a b = a.operation_id == b.operation_id && a.transition_id == b.transition_id

-- The source has three functions for the same comparison, by what stands on the left.
unfoldable pub authored_by : PlaneState → PlaneAuthor → Bool
authored_by s who = elim s.by [ none ↦ false | some a ↦ same_identity a who ]

unfoldable pub owns_slot_op : Option Reservation → PlaneAuthor → Bool
owns_slot_op none who = false
owns_slot_op (some slot) who = same_identity (tuple_author slot.op) who

unfoldable pub owns_journal : Option JournalEntry → ApplyOperation → Bool
owns_journal none op = false
owns_journal (some j) op = same_identity (op_author j.op) (op_author op)

unfoldable pub same_record_identity : PublishRecord → PublishRecord → Bool
same_record_identity a b =
    a.generation == b.generation
    && a.generation_digest == b.generation_digest
    && same_identity (record_author a) (record_author b)

abbrev tuple_of : ApplyOperation → Plane → PlaneTarget → OperationTuple
tuple_of op plane t = record {
  leader_token = op.leader_token;
  operation_id = op.operation_id;
  transition_id = op.transition_id;
  plane = plane;
  expected_current = t.expected_current;
  target = t.target;
  payload_digest = t.payload_digest;
  target_generation = op.target_generation;
  generation_digest = op.generation_digest;
}

unfoldable pub tuple_for : ApplyOperation → Plane → Result OperationTuple
tuple_for op plane = elim (at op.planes plane) [
  | none ↦ err envelope_mismatch
  | some t ↦ ok (tuple_of op plane t)
]

unfoldable pub tuples_for : ApplyOperation → List Plane → Result (List OperationTuple)
unfolding tuple_for
tuples_for op [] = ok []
tuples_for op (p ∷ ps) = do ok ((← tuple_for op p) ∷ (← tuples_for op ps))

abbrev pub slot_at : AgentState → Plane → ℕ → Option Reservation
slot_at s plane epoch = lookup epoch (at s.reservations plane)

abbrev pub transition_key : OperationTuple → TerminalKey
transition_key t = of_transition (tuple_author t) t.plane

abbrev pub completed_key : OperationTuple → StepName → CompletedKey
completed_key t step = record { who = tuple_author t; plane = t.plane; step = step }

-- A transition's own key first, then the key without a token.
unfoldable pub terminal_of : AgentState → PlaneAuthor → Plane → Option TerminalKind
terminal_of s who plane = elim (lookup (of_transition who plane) s.terminal) [
  | some kind ↦ some kind
  | none ↦ lookup (of_legacy who.operation_id who.transition_id plane) s.terminal
]
