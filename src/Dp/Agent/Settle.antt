-- ===== src/Dp/Agent/Settle.antt =====
-- src/dp/agent.ts, the end of an operation that is fenced off or finished: the candidate becomes the
-- last activation or is dropped, and a superseded holder loses its slots, journal and right.
use barycenter.Prelude.{
  ℕ, Bool, true, false, not, ◌&&◌, Option, none, some, List, [], ◌∷◌, ◌==◌, if◌then◌else◌, nat_eq,
  is_some, ◌+◌,
}
use barycenter.Dp.Operation.{
  Plane, http, stream, at, PerPlane, ApplyOperation, PublishRecord, ApplyPhase, is_terminal_phase,
}
use barycenter.Dp.Agent.State.{
  PlaneAuthor, TerminalKind, ActiveOperation, terminal_keys, completed_keys, AgentState,
}
use barycenter.Dp.Agent.Identity.{
  op_author, holder_author, record_author, same_transition_name, authored_by, owns_slot_op, slot_at,
  terminal_of,
}
use barycenter.Dp.Agent.Rules.{delete_slot}

-- Whether one plane of a candidate stands where the transition meant it to. A coordinate without
-- an author is of an older state: there the transition's end says it.
unfoldable pub plane_arrived : AgentState → PublishRecord → Plane → Option ℕ → Bool
unfolding authored_by
plane_arrived s candidate plane none = true
plane_arrived s candidate plane (some epoch) =
    (at s.planes plane).coordinate.activation_epoch == epoch && elim (at s.planes plane).by [
      | none ↦ elim (terminal_of s (record_author candidate) plane) [
        | some TerminalKind.activated ↦ true
        | _ ↦ false
      ]
      | some _ ↦ authored_by (at s.planes plane) (record_author candidate)
    ]

unfoldable pub candidate_arrived : AgentState → PublishRecord → Option (PerPlane (Option ℕ)) → Bool
unfolding plane_arrived
candidate_arrived s candidate none = false
candidate_arrived s candidate (some epochs) =
    plane_arrived s candidate http epochs.at_http
    && plane_arrived s candidate stream epochs.at_stream

abbrev plane_reached : AgentState → Plane → Option ℕ → Bool
plane_reached s plane none = true
plane_reached s plane (some epoch) = (at s.planes plane).coordinate.activation_epoch == epoch

unfoldable pub positions_reached : AgentState → Option (PerPlane (Option ℕ)) → Bool
positions_reached s none = false
positions_reached s (some epochs) =
    plane_reached s http epochs.at_http && plane_reached s stream epochs.at_stream

abbrev epoch_of : ApplyOperation → Plane → Option ℕ
epoch_of op plane = elim (at op.planes plane) [
  | none ↦ none
  | some t ↦ some t.target.activation_epoch
]

unfoldable pub epochs_of : ApplyOperation → PerPlane (Option ℕ)
epochs_of op = record { at_http = epoch_of op http; at_stream = epoch_of op stream }

unfoldable pub planes_of_operation : ApplyOperation → List Plane
planes_of_operation op =
    let streams = if is_some (at op.planes stream) then stream ∷ [] else [] in
    if is_some (at op.planes http) then http ∷ streams else streams

unfoldable pub epochs_from_journal : AgentState → PlaneAuthor → Option (PerPlane (Option ℕ))
unfolding epochs_of
epochs_from_journal s ids = elim s.journal [
  | none ↦ none
  | some j ↦ if same_transition_name (op_author j.op) ids then some (epochs_of j.op) else none
]

abbrev or_else : {A : Type 0} → Option A → Option A → Option A
or_else none b = b
or_else (some a) b = some a

-- The candidate becomes the last activation if all its planes have arrived. If only the positions
-- are reached, by others, the last activation is unknown.
unfoldable pub settle_candidate : AgentState → PlaneAuthor → PublishRecord → AgentState
unfolding candidate_arrived positions_reached epochs_from_journal
settle_candidate s ids candidate =
    let epochs = or_else s.pending_epochs (epochs_from_journal s ids) in
    let arrived = candidate_arrived s candidate epochs in
    let reached = positions_reached s epochs in
    record s {
      last_activated =
          if arrived then some candidate else if reached then none else s.last_activated;
      pending_activation = none;
      pending_epochs = none;
    }

unfoldable pub finalize_candidate : AgentState → PlaneAuthor → AgentState
unfolding settle_candidate
finalize_candidate s ids = elim s.pending_activation [
  | none ↦ s
  | some candidate ↦
      if same_transition_name (record_author candidate) ids
      then settle_candidate s ids candidate
      else s
]

-- The loop of `supersede` and `releaseHolderSlots`: the slots that the holder owns go.
unfoldable pub drop_own_slots :
    AgentState → PlaneAuthor → PerPlane (Option ℕ) → List Plane → AgentState
unfolding delete_slot owns_slot_op
drop_own_slots s who epochs [] = s
drop_own_slots s who epochs (p ∷ ps) =
    drop_own_slots
      (elim (at epochs p) [
        | none ↦ s
        | some epoch ↦ if owns_slot_op (slot_at s p epoch) who then delete_slot s p epoch else s
      ])
      who epochs ps

unfoldable pub close_superseded : AgentState → PlaneAuthor → AgentState
close_superseded s who = elim s.journal [
  | none ↦ s
  | some j ↦
      if same_transition_name (op_author j.op) who && not (is_terminal_phase j.phase)
      then record s { journal = some (record j { phase = ApplyPhase.superseded; seq = j.seq + 1 }) }
      else s
]

unfoldable pub clear_holder : AgentState → PlaneAuthor → AgentState
clear_holder s who = elim s.active_operation [
  | none ↦ s
  | some live ↦ if holder_is live then record s { active_operation = none } else s
]
  where
    holder_is : ActiveOperation → Bool
    holder_is live =
        live.operation_id == who.operation_id
        && live.transition_id == who.transition_id
        && live.leader_token == who.leader_token

unfoldable pub supersede : AgentState → ActiveOperation → AgentState
unfolding drop_own_slots close_superseded finalize_candidate clear_holder
supersede s holder =
    let who = holder_author holder in
    let s1 = drop_own_slots s who holder.epochs holder.planes in
    let s2 = close_superseded s1 who in let s3 = finalize_candidate s2 who in clear_holder s3 who
