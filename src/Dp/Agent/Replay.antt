-- ===== src/Dp/Agent/Replay.antt =====
-- A step that has been answered is answered again with the same acknowledgement, and changes
-- nothing: each step leaves an answer on record.
use barycenter.Prelude.{◌≡◌, ◌∙◌, true, none, some, arith, ◌⊎◌, inl, inr, lookup-insert_self}
use barycenter.Dp.Operation.{at, put, ActivationEvidence}
use barycenter.Dp.Agent.State.{
  OperationTuple, PlaneAck, TerminalKind, Result, ok, Reservation, StepName, completed_keys,
  terminal_keys, AgentState,
}
use barycenter.Dp.Agent.Identity.{tuple_author, terminal_of, slot_at, transition_key}
use barycenter.Dp.Agent.Rules.{
  record_step, target_state, acquire, acquire_new, set_slot, finish, release_own_slot,
}
use barycenter.Dp.Agent.Verbs.{
  reserve, reserve_admitted, stage, stage_admitted, commit, commit_admitted, commit_new, check_slot,
  move_plane, propose, apply_health, apply_health_admitted, already_there,
}
use barycenter.Dp.Agent.Ensures.{bind-ok}
use barycenter.Dp.Agent.Answers.{
  again, IsOpen, unended, ended_well, IsAnswered, admit-IsAnswered, record_step-IsAnswered,
  step-IsAnswered,
}

pub finish-terminal_of :
    (s : AgentState) (op : OperationTuple) (how : TerminalKind)
    → terminal_of (finish s op how) (tuple_author op) op.plane ≡ some how
unfolding finish terminal_of
finish-terminal_of s op how =
    ground (arith, lookup-insert_self (transition_key op) how (release_own_slot s op).terminal)

-- What a commit that moves the plane makes of the state.
abbrev pub committed_state : AgentState → OperationTuple → ActivationEvidence → AgentState
committed_state s op evidence =
    finish (propose (move_plane s op evidence) op) op TerminalKind.activated

pub commit_new_lem :
    (s : AgentState) (op : OperationTuple) (evidence : ActivationEvidence)
    {r : AgentState × PlaneAck}
    → commit_new s op evidence ≡ ok r
    → let t = committed_state s op evidence in
      (check_slot (slot_at s op.plane op.target.activation_epoch) (at s.planes op.plane) op evidence
        ≡ ok tt)
      × (r ≡ record_step t op StepName.commit (at t.planes op.plane))
unfolding commit_new
commit_new_lem s op evidence e = (ground arith, ground arith)

committed_state-token :
    (s : AgentState) (op : OperationTuple) (evidence : ActivationEvidence)
    → (committed_state s op evidence).max_leader_token ≡ s.max_leader_token
unfolding finish release_own_slot propose move_plane
committed_state-token s op evidence = ground arith

pub commit_admitted_lem :
    (s : AgentState) (op : OperationTuple) (evidence : ActivationEvidence)
    {r : AgentState × PlaneAck}
    → commit_admitted s op evidence ≡ ok r
    → ((already_there s op ≡ true) × (r ≡ record_step s op StepName.commit (at s.planes op.plane)))
      ⊎ (commit_new s op evidence ≡ ok r)
unfolding commit_admitted
commit_admitted_lem s op evidence e = ground arith

apply_health_recorded :
    (s : AgentState) (op : OperationTuple) {r : AgentState × PlaneAck}
    → apply_health_admitted s op ≡ ok r
    → let moved = target_state op (at s.planes op.plane).by in
      r ≡ record_step (record s { planes = put s.planes op.plane moved }) op StepName.health moved
unfolding apply_health_admitted
apply_health_recorded s op e = ground arith

-- Taking a slot changes the slots alone.
acquire-frame :
    (s : AgentState) (op : OperationTuple) {r : AgentState × Reservation}
    → acquire s op ≡ ok r
    → (r.0.max_leader_token ≡ s.max_leader_token)
      × (r.0.terminal ≡ s.terminal)
      × (r.0.planes ≡ s.planes)
unfolding acquire acquire_new set_slot
acquire-frame s op e = (ground arith, ground arith, ground arith)

terminal_of-frame :
    (s t : AgentState) (op : OperationTuple)
    → t.terminal ≡ s.terminal
    → terminal_of t (tuple_author op) op.plane ≡ terminal_of s (tuple_author op) op.plane
unfolding terminal_of
terminal_of-frame s t op e = rw e

module _ (s : AgentState) (op : OperationTuple) (newest : s.max_leader_token ≡ op.leader_token)
    (unended_yet : terminal_of s (tuple_author op) op.plane ≡ none) where
  still-IsOpen : IsOpen (terminal_of s (tuple_author op) op.plane)
  still-IsOpen = rw unended_yet unended

  commit_admitted-IsAnswered :
      (evidence : ActivationEvidence) (r : AgentState × PlaneAck)
      → commit_admitted s op evidence ≡ ok r
      → IsAnswered r.0 op StepName.commit r.1
  commit_admitted-IsAnswered evidence r e = elim (commit_admitted_lem s op evidence e) [
    | inl (here, same) ↦
        rw same
          (record_step-IsAnswered s op StepName.commit (at s.planes op.plane) newest still-IsOpen)
    | inr moved ↦
        let t = committed_state s op evidence in
        rw ((commit_new_lem s op evidence moved).1) (
          record_step-IsAnswered t op StepName.commit (at t.planes op.plane)
            (committed_state-token s op evidence ∙ newest)
            (rw
              (finish-terminal_of (propose (move_plane s op evidence) op) op TerminalKind.activated)
              ended_well))
  ]

  apply_health_admitted-IsAnswered :
      (r : AgentState × PlaneAck)
      → apply_health_admitted s op ≡ ok r
      → IsAnswered r.0 op StepName.health r.1
  unfolding terminal_of
  apply_health_admitted-IsAnswered r e =
      rw (apply_health_recorded s op e)
        (record_step-IsAnswered _ op StepName.health _ newest still-IsOpen)

  acquired-IsAnswered :
      (step : StepName) (t : AgentState)
      → t.max_leader_token ≡ s.max_leader_token
      → t.terminal ≡ s.terminal
      → let r = record_step t op step (target_state op none) in IsAnswered r.0 op step r.1
  acquired-IsAnswered step t token ends =
      record_step-IsAnswered t op step (target_state op none) (token ∙ newest)
        (rw (terminal_of-frame s t op ends) still-IsOpen)

  reserve_admitted-IsAnswered :
      (r : AgentState × PlaneAck)
      → reserve_admitted s op ≡ ok r
      → IsAnswered r.0 op StepName.reserve r.1
  unfolding reserve_admitted
  reserve_admitted-IsAnswered r e =
      let (q, taken, recorded) =
        bind-ok (acquire s op)
          (λ q. ok (record_step q.0 op StepName.reserve (target_state op none))) e in
      let (token, ends, _) = acquire-frame s op taken in
      let same : r ≡ record_step q.0 op StepName.reserve (target_state op none) = cc in
      rw same (acquired-IsAnswered StepName.reserve q.0 token ends)

  stage_admitted-IsAnswered :
      (r : AgentState × PlaneAck)
      → stage_admitted s op ≡ ok r
      → IsAnswered r.0 op StepName.stage r.1
  unfolding stage_admitted set_slot
  stage_admitted-IsAnswered r e =
      let (q, taken, recorded) =
        bind-ok (acquire s op)
          (λ q. ok (record_step (staged_state q) op StepName.stage (target_state op none))) e in
      let (token, ends, _) = acquire-frame s op taken in
      let same : r ≡ record_step (staged_state q) op StepName.stage (target_state op none) = cc in
      rw same (acquired-IsAnswered StepName.stage (staged_state q) token ends)
    where
      staged_state : AgentState × Reservation → AgentState
      staged_state q =
          set_slot q.0 op.plane op.target.activation_epoch
            (record q.1 { staged_digest = some op.payload_digest })

-- One step of a transition on one plane; only a commit looks at the evidence.
abbrev pub perform :
    StepName → AgentState → OperationTuple → ActivationEvidence → Result (AgentState × PlaneAck)
perform StepName.reserve s op evidence = reserve s op
perform StepName.stage s op evidence = stage s op
perform StepName.commit s op evidence = commit s op evidence
perform StepName.health s op evidence = apply_health s op

perform-IsAnswered :
    (step : StepName) (s : AgentState) (op : OperationTuple) (evidence : ActivationEvidence)
    {t : AgentState} {ack : PlaneAck}
    → perform step s op evidence ≡ ok (t, ack)
    → IsAnswered t op step ack
unfolding reserve stage commit apply_health
perform-IsAnswered StepName.reserve s op evidence e =
    step-IsAnswered s op StepName.reserve (λ u. reserve_admitted u op)
      (λ u r newest unended_yet rested.
        reserve_admitted-IsAnswered u op newest unended_yet r rested)
      e
perform-IsAnswered StepName.stage s op evidence e =
    step-IsAnswered s op StepName.stage (λ u. stage_admitted u op)
      (λ u r newest unended_yet rested. stage_admitted-IsAnswered u op newest unended_yet r rested)
      e
perform-IsAnswered StepName.commit s op evidence e =
    step-IsAnswered s op StepName.commit (λ u. commit_admitted u op evidence)
      (λ u r newest unended_yet rested.
        commit_admitted-IsAnswered u op newest unended_yet evidence r rested)
      e
perform-IsAnswered StepName.health s op evidence e =
    step-IsAnswered s op StepName.health (λ u. apply_health_admitted u op)
      (λ u r newest unended_yet rested.
        apply_health_admitted-IsAnswered u op newest unended_yet r rested)
      e

-- A step that has succeeded may be sent again: at once, with any evidence, it succeeds with the
-- same answer, marked as cached, and leaves the state exactly as it is.
pub perform-perform :
    (step : StepName) (s : AgentState) (op : OperationTuple) (evidence other : ActivationEvidence)
    {t : AgentState} {ack : PlaneAck}
    → perform step s op evidence ≡ ok (t, ack)
    → perform step t op other ≡ ok (t, again ack)
unfolding reserve stage commit apply_health
perform-perform StepName.reserve s op evidence other {t} {ack} e = rw (
    admit-IsAnswered t op StepName.reserve ack
      (perform-IsAnswered StepName.reserve s op evidence e))
perform-perform StepName.stage s op evidence other {t} {ack} e =
    rw
      (admit-IsAnswered t op StepName.stage ack (perform-IsAnswered StepName.stage s op evidence e))
perform-perform StepName.commit s op evidence other {t} {ack} e =
    rw (
      admit-IsAnswered t op StepName.commit ack
        (perform-IsAnswered StepName.commit s op evidence e))
perform-perform StepName.health s op evidence other {t} {ack} e =
    rw (
      admit-IsAnswered t op StepName.health ack
        (perform-IsAnswered StepName.health s op evidence e))
