-- ===== src/Dp/Agent/VerbsAdvance.antt =====
-- No operation on a plane lowers a token, an epoch or the journal's sequence number, and each
-- keeps the slots well formed.
use barycenter.Prelude.{
  ℕ, ◌≤◌, ◌<◌, ◌≡◌, ◌⊎◌, refl, true, Option, none, some, arith, Bool-cases, inl, inr,
}
use barycenter.Dp.Operation.{http, stream, at, ActivationEvidence, proves_activation}
use barycenter.Dp.Agent.State.{
  PlaneState, OperationTuple, PlaneAck, TerminalKind, ok, Reservation, StepName, AgentState,
}
use barycenter.Dp.Agent.Identity.{slot_at, same_tuple_iff}
use barycenter.Dp.Agent.Rules.{raise_token, record_step, release_own_slot, finish, finalize}
use barycenter.Dp.Agent.Verbs.{
  reserve, reserve_admitted, stage, stage_admitted, commit, commit_new, commit_admitted, check_slot,
  already_there, move_plane, propose, release, apply_health, apply_health_admitted, fence,
  fence_holder, set_token, forget_steps,
}
use barycenter.Dp.Agent.Ensures.{Ensures, Ensures-of, Ensures-step}
use barycenter.Dp.Agent.Slots.{SlotsAreWellFormed}
use barycenter.Dp.Agent.Advance.{
  Advances, Advances-refl, Advances-trans, Advances-frame, release_own_slot-Advances,
  raise_token-Advances, finish-Advances, record_step-Advances, epoch_at, SlotsAreWellFormed-frame,
}
use barycenter.Dp.Agent.Admission.{
  admit-Advances, reserve_admitted-Advances, stage_admitted-Advances,
}

pub check_slot_lem :
    (found : Option Reservation) (current : PlaneState) (op : OperationTuple)
    (evidence : ActivationEvidence) {u : Unit {0}}
    → check_slot found current op evidence ≡ ok u
    → (slot : Reservation) × (found ≡ some slot)
      × (slot.op ≡ op)
      × (current.coordinate ≡ op.expected_current)
      × (slot.staged_digest ≡ some op.payload_digest)
      × (proves_activation (some evidence) op.target_generation ≡ true)
unfolding check_slot
check_slot_lem none current op evidence e = cc
check_slot_lem (some slot) current op evidence e = (
  slot,
  refl,
  ground (arith, same_tuple_iff slot.op op),
  ground arith,
  ground arith,
  ground arith,
)

module _ (s : AgentState) (op : OperationTuple) (h : SlotsAreWellFormed s) where
  move_plane-Advances :
      (evidence : ActivationEvidence)
      → epoch_at s op.plane ≤ op.target.activation_epoch
      → Advances s (move_plane s op evidence)
  unfolding move_plane
  move_plane-Advances evidence le = record {
    token = omega arith;
    http_epoch = ground arith;
    stream_epoch = ground arith;
    sequence = omega arith;
    slots = SlotsAreWellFormed-frame refl refl h;
  }

  propose-Advances : Advances s (propose s op)
  unfolding propose
  propose-Advances = Advances-frame h refl refl refl refl

  -- A slot that passed the checks of a commit was taken for a later epoch than the current one.
  check_slot-forward :
      (evidence : ActivationEvidence) {u : Unit {0}}
      → check_slot
          (slot_at s op.plane op.target.activation_epoch)
          (at s.planes op.plane)
          op
          evidence
        ≡ ok u
      → epoch_at s op.plane < op.target.activation_epoch
  check_slot-forward evidence e =
      let (slot, found, own, current, _, _) = check_slot_lem _ _ op evidence e in
      let w = h op.plane op.target.activation_epoch slot found in ground arith

pub apply_health_admitted_lem :
    (s : AgentState) (op : OperationTuple) {t : AgentState} {ack : PlaneAck}
    → apply_health_admitted s op ≡ ok (t, ack)
    → (t.max_leader_token ≡ s.max_leader_token)
      × (t.reservations ≡ s.reservations)
      × (t.journal ≡ s.journal)
      × (epoch_at t http ≡ epoch_at s http)
      × (epoch_at t stream ≡ epoch_at s stream)
      × ((at s.planes op.plane).coordinate.membership_revision < op.target.membership_revision)
unfolding apply_health_admitted record_step
apply_health_admitted_lem s op e =
    (ground arith, ground arith, ground arith, ground arith, ground arith, ground arith)

finalize_lem :
    (s : AgentState) (op : OperationTuple) (how : TerminalKind) {t : AgentState}
    → finalize s op how ≡ ok t
    → (t ≡ raise_token s op.leader_token) ⊎ (t ≡ finish (raise_token s op.leader_token) op how)
unfolding finalize
finalize_lem s op how e = ground arith

release_lem :
    (s : AgentState) (op : OperationTuple) {t : AgentState}
    → release s op ≡ ok t
    → (t ≡ s) ⊎ (t ≡ forget_steps (release_own_slot s op) op)
unfolding release
release_lem s op e = ground arith

pub fence_lem :
    (s : AgentState) (token : ℕ) {t : AgentState} {seen : ℕ}
    → fence s token ≡ ok (t, seen)
    → (s.max_leader_token ≤ token) × (t ≡ fence_holder (set_token s token) token)
unfolding fence
fence_lem s token e = (ground arith, ground arith)

module _ (s : AgentState) (op : OperationTuple) (h : SlotsAreWellFormed s) where
  commit_new-Advances :
      (evidence : ActivationEvidence) → Ensures (λ r. Advances s r.0) (commit_new s op evidence)
  unfolding commit_new
  commit_new-Advances evidence =
      Ensures-step (λ r. Advances s r.0)
        (check_slot (slot_at s op.plane op.target.activation_epoch) (at s.planes op.plane) op
          evidence)
        (λ _. ok (record_step s2 op StepName.commit (at s2.planes op.plane)))
        λ u e.
          let forward = check_slot-forward s op h evidence e in
          let a = move_plane-Advances s op h evidence (omega arith) in
          let b = propose-Advances _ op a.slots in
          let c = finish-Advances _ b.slots op TerminalKind.activated in
          let d = record_step-Advances s2 c.slots op StepName.commit (at s2.planes op.plane) in
          Advances-trans a (Advances-trans b (Advances-trans c d))
    where
      s2 : AgentState
      s2 = finish (propose (move_plane s op evidence) op) op TerminalKind.activated

  commit_admitted-Advances :
      (evidence : ActivationEvidence)
      → Ensures (λ r. Advances s r.0) (commit_admitted s op evidence)
  unfolding commit_admitted
  commit_admitted-Advances evidence = elim (Bool-cases (already_there s op)) [
    | inl here ↦ rw here (record_step-Advances s h op StepName.commit (at s.planes op.plane))
    | inr away ↦ rw away (commit_new-Advances evidence)
  ]

  apply_health_admitted-Advances : Ensures (λ r. Advances s r.0) (apply_health_admitted s op)
  apply_health_admitted-Advances =
      Ensures-of (λ r. Advances s r.0) (apply_health_admitted s op)
        λ r e.
          let (token, slots, journal, at_http, at_stream, _) =
            apply_health_admitted_lem s op {t = r.0} {ack = r.1} e in
          record {
            token = omega arith;
            http_epoch = omega arith;
            stream_epoch = omega arith;
            sequence = ground arith;
            slots = SlotsAreWellFormed-frame token slots h;
          }

module _ (s : AgentState) (op : OperationTuple) (h : SlotsAreWellFormed s) where
  -- The four operations that answer with an acknowledgement.
  pub reserve-Advances : Ensures (λ r. Advances s r.0) (reserve s op)
  unfolding reserve
  reserve-Advances =
      admit-Advances s op StepName.reserve (λ t. reserve_admitted t op) h
        (λ t h' fenced. reserve_admitted-Advances t op h' fenced)

  pub stage-Advances : Ensures (λ r. Advances s r.0) (stage s op)
  unfolding stage
  stage-Advances =
      admit-Advances s op StepName.stage (λ t. stage_admitted t op) h
        (λ t h' fenced. stage_admitted-Advances t op h' fenced)

  pub commit-Advances :
      (evidence : ActivationEvidence) → Ensures (λ r. Advances s r.0) (commit s op evidence)
  unfolding commit
  commit-Advances evidence =
      admit-Advances s op StepName.commit (λ t. commit_admitted t op evidence) h
        (λ t h' fenced. commit_admitted-Advances t op h' evidence)

  pub apply_health-Advances : Ensures (λ r. Advances s r.0) (apply_health s op)
  unfolding apply_health
  apply_health-Advances =
      admit-Advances s op StepName.health (λ t. apply_health_admitted t op) h
        (λ t h' fenced. apply_health_admitted-Advances t op h')

  pub finalize-Advances : (how : TerminalKind) → Ensures (λ t. Advances s t) (finalize s op how)
  finalize-Advances how =
      Ensures-of (λ t. Advances s t) (finalize s op how)
        λ t e.
          let a = raise_token-Advances s h op.leader_token in
          elim (finalize_lem s op how e) [
            | inl same ↦ rw same a
            | inr done ↦ rw done (Advances-trans a (finish-Advances _ a.slots op how))
          ]

  pub release-Advances : Ensures (λ t. Advances s t) (release s op)
  release-Advances =
      Ensures-of (λ t. Advances s t) (release s op)
        λ t e. elim (release_lem s op e) [
          | inl same ↦ rw same (Advances-refl s h)
          | inr gone ↦
              let a = release_own_slot-Advances s h op in
              rw gone (Advances-trans a (Advances-frame a.slots refl refl refl refl))
        ]
