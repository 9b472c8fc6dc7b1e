-- ===== src/Dp/Agent/Opening.antt =====
-- src/dp/agent.ts, `reserveAll`: the reservation of all planes of an apply operation, with the
-- cleaning of an orphaned journal and the opening of the operation's own, in one step.
use barycenter.Prelude.{
  ℕ, Bool, true, false, not, ◌&&◌, ◌||◌, Option, none, some, List, [], ◌∷◌, if◌then◌else◌, is_some,
  insert, ◌+◌, map,
}
use barycenter.Dp.Operation.{
  Plane, http, stream, PerPlane, ApplyOperation, ApplyPhase, PlaneProgress, is_terminal_phase,
  planes_of,
}
use barycenter.Dp.Agent.State.{
  OperationTuple, PlaneAck, TerminalKind, empty_envelope, operation_in_flight, Result, ok, err,
  ◌>>=◌, ◌>>◌, reject_if, ActiveOperation, JournalEntry, TerminalKey, terminal_keys,
  terminal_key_eq, AgentState,
}
use barycenter.Dp.Agent.Identity.{
  tuple_author, op_author, holder_author, same_transition_name, owns_journal, tuples_for,
  transition_key, terminal_of,
}
use barycenter.Dp.Agent.Rules.{assert_leader}
use barycenter.Dp.Agent.Settle.{supersede}
use barycenter.Dp.Agent.Verbs.{reserve}

abbrev has_key : TerminalKey → List OperationTuple → Bool
has_key k [] = false
has_key k (t ∷ ts) = terminal_key_eq (transition_key t) k || has_key k ts

-- A plane of the orphan that has not ended is given up, but for those that are opened now.
unfoldable pub abort_orphan : AgentState → List OperationTuple → OperationTuple → AgentState
abort_orphan s mine t =
    if not (is_some (terminal_of s (tuple_author t) t.plane))
      && not (has_key (transition_key t) mine)
    then record s { terminal = insert (transition_key t) TerminalKind.aborted s.terminal }
    else s

unfoldable pub abort_orphans : AgentState → List OperationTuple → List OperationTuple → AgentState
abort_orphans s mine [] = s
abort_orphans s mine (t ∷ ts) = abort_orphans (abort_orphan s mine t) mine ts

abbrev target_epoch : OperationTuple → ℕ
target_epoch t = t.target.activation_epoch

abbrev epoch_among : List OperationTuple → Plane → Option ℕ
epoch_among [] p = none
epoch_among (t ∷ ts) http = elim t.plane [
  | http ↦ some (target_epoch t)
  | stream ↦ epoch_among ts http
]
epoch_among (t ∷ ts) stream = elim t.plane [
  | http ↦ epoch_among ts stream
  | stream ↦ some (target_epoch t)
]

-- `Object.fromEntries` over the tuples of an operation: one plane has one target, so that the
-- first entry of a plane is its last one.
abbrev pub epochs_among : List OperationTuple → PerPlane (Option ℕ)
epochs_among ts = record { at_http = epoch_among ts http; at_stream = epoch_among ts stream }

abbrev pub holder_of : ApplyOperation → List Plane → PerPlane (Option ℕ) → ActiveOperation
holder_of op planes epochs = record {
  operation_id = op.operation_id;
  transition_id = op.transition_id;
  leader_token = op.leader_token;
  planes = planes;
  epochs = epochs;
}

-- An unfinished journal of another transition, found when a journal is opened, is closed.
unfoldable pub clear_orphan : AgentState → List OperationTuple → JournalEntry → Result AgentState
clear_orphan s mine stale = do
  theirs ← tuples_for stale.op (planes_of stale.op)
  let s' = abort_orphans s mine theirs
  ok (supersede s' (holder_of stale.op (planes_of stale.op) (epochs_among theirs)))

unfoldable pub clear_stale_journal :
    AgentState → ApplyOperation → List OperationTuple → Bool → Result AgentState
unfolding owns_journal
clear_stale_journal s op mine opening = elim s.journal [
  | none ↦ ok s
  | some stale ↦
      if opening && not (owns_journal (some stale) op) && not (is_terminal_phase stale.phase)
      then clear_orphan s mine stale
      else ok s
]

-- The tuples are reserved in turn; a rejection of one rejects them all.
unfoldable pub reserve_each : AgentState → List OperationTuple → Result (AgentState × List PlaneAck)
reserve_each s [] = ok (s, [])
reserve_each s (t ∷ ts) = do
  (s1, ack) ← reserve s t
  (s2, acks) ← reserve_each s1 ts
  ok (s2, ack ∷ acks)

-- The fields of the journal's first entry, but for its sequence number.
pub record Opening : Type 0 where
  pub op : ApplyOperation
  pub phase : ApplyPhase
  pub reload_attempts : ℕ
  pub progress : PerPlane (Option PlaneProgress)

abbrev pub seq_of : Option JournalEntry → ℕ
seq_of none = 0
seq_of (some j) = j.seq

abbrev opening_entry : Opening → ℕ → JournalEntry
opening_entry o seq = record {
  op = o.op;
  phase = o.phase;
  reload_attempts = o.reload_attempts;
  seq = seq;
  progress = o.progress;
  evidence = none;
  failure = none;
}

unfoldable pub open_journal : AgentState → ApplyOperation → Option Opening → AgentState
unfolding owns_journal
open_journal s op none = s
open_journal s op (some o) =
    if owns_journal s.journal op
    then s
    else record s { journal = some (opening_entry o (seq_of s.journal + 1)) }

abbrev pub holder_is_op : Option ActiveOperation → ApplyOperation → Bool
holder_is_op none op = false
holder_is_op (some h) op = same_transition_name (holder_author h) (op_author op)

abbrev pub may_hold : Option ActiveOperation → ApplyOperation → Bool
may_hold none op = true
may_hold (some h) op = holder_is_op (some h) op

abbrev pub hold : AgentState → ApplyOperation → List OperationTuple → AgentState
hold s op ts = record s {
  active_operation =
      some (holder_of op (map (λ (u : OperationTuple). u.plane) ts) (epochs_among ts));
}

unfoldable pub reserve_clean :
    AgentState
    → ApplyOperation
    → List OperationTuple
    → Option Opening
    → Result (AgentState × List PlaneAck)
reserve_clean s op ts opening = do
  s1 ← clear_stale_journal s op ts (is_some opening)
  (s2, acks) ← reserve_each s1 ts
  ok (open_journal (hold s2 op ts) op opening, acks)

unfoldable pub reserve_tuples :
    AgentState
    → ApplyOperation
    → List OperationTuple
    → Option Opening
    → Result (AgentState × List PlaneAck)
unfolding assert_leader
reserve_tuples s op [] opening = err empty_envelope
reserve_tuples s op (t ∷ ts) opening = do
  assert_leader s t.leader_token
  reject_if (not (may_hold s.active_operation op)) operation_in_flight
  reserve_clean s op (t ∷ ts) opening

unfoldable pub reserve_all :
    AgentState → ApplyOperation → Option Opening → Result (AgentState × List PlaneAck)
reserve_all s op opening = do
  tuples ← tuples_for op (planes_of op)
  reserve_tuples s op tuples opening
