-- ===== src/Dp/Agent/Admission.antt =====
-- What admission and the taking of a slot do to the state.
use barycenter.Prelude.{◌≤◌, ◌<◌, ◌≡◌, ◌⊎◌, refl, Option, none, some, arith, inl, inr}
use barycenter.Dp.Operation.{at}
use barycenter.Dp.Agent.State.{
  OperationTuple, PlaneAck, Result, ok, ◌>>=◌, Reservation, StepName, AgentState,
}
use barycenter.Dp.Agent.Identity.{slot_at, same_tuple_iff}
use barycenter.Dp.Agent.Rules.{
  set_slot, raise_token, admit, record_step, target_state, acquire, acquire_new,
}
use barycenter.Dp.Agent.Verbs.{unless_replayed, reserve_admitted, stage_admitted}
use barycenter.Dp.Agent.Ensures.{Ensures, Ensures-step, Ensures-map}
use barycenter.Dp.Agent.Slots.{IsWellFormedSlot, SlotsAreWellFormed, IsWellFormedSlot-set_slot}
use barycenter.Dp.Agent.Advance.{
  Advances, Advances-refl, Advances-trans, set_slot-Advances, raise_token-Advances,
  record_step-Advances,
}

-- What is admitted is not of a stale leader, and only the highest token has changed.
pub admit_lem :
    (s : AgentState) (op : OperationTuple) (step : StepName) {t : AgentState}
    {replay : Option PlaneAck}
    → admit s op step ≡ ok (t, replay)
    → (s.max_leader_token ≤ op.leader_token) × (t ≡ raise_token s op.leader_token)
unfolding admit
admit_lem s op step e = (ground arith, ground arith)

replay-Advances :
    {s t : AgentState} (replay : Option PlaneAck) (rest : Result (AgentState × PlaneAck))
    → Advances s t
    → Ensures (λ r. Advances t r.0) rest
    → Ensures (λ r. Advances s r.0) (unless_replayed replay t rest)
replay-Advances (some ack) rest a h = a
replay-Advances none rest a h =
    Ensures-map (λ r. Advances _ r.0) (λ r. Advances _ r.0) rest h (λ r e b. Advances-trans a b)

-- An admitted operation advances if its rest does, on the state with the operation's token for
-- the highest.
pub admit-Advances :
    (s : AgentState) (op : OperationTuple) (step : StepName)
    (rest : AgentState → Result (AgentState × PlaneAck))
    → SlotsAreWellFormed s
    → ((t : AgentState)
        → SlotsAreWellFormed t
        → op.leader_token ≤ t.max_leader_token
        → Ensures (λ r. Advances t r.0) (rest t))
    → Ensures (λ r. Advances s r.0) (admit s op step >>= λ r. unless_replayed r.1 r.0 (rest r.0))
admit-Advances s op step rest h k =
    Ensures-step (λ r. Advances s r.0) (admit s op step) (λ r. unless_replayed r.1 r.0 (rest r.0))
      λ r e.
        let (le, same) = admit_lem s op step {t = r.0} {replay = r.1} e in
        let a : Advances s r.0 = rw same (raise_token-Advances s h op.leader_token) in
        replay-Advances r.1 (rest r.0) a (k r.0 a.slots (ground arith))

abbrev fresh_slot : OperationTuple → Reservation
fresh_slot op = record { op = op; staged_digest = none }

acquire_new_lem :
    (s : AgentState) (op : OperationTuple) {t : AgentState} {slot : Reservation}
    → acquire_new s op ≡ ok (t, slot)
    → (t ≡ set_slot s op.plane op.target.activation_epoch (fresh_slot op))
      × (slot ≡ fresh_slot op)
      × (op.expected_current.activation_epoch < op.target.activation_epoch)
      × (op.expected_current ≡ (at s.planes op.plane).coordinate)
unfolding acquire_new
acquire_new_lem s op e = (ground arith, ground arith, ground arith, ground arith)

pub acquire_lem :
    (s : AgentState) (op : OperationTuple) {t : AgentState} {slot : Reservation}
    → acquire s op ≡ ok (t, slot)
    → ((slot_at s op.plane op.target.activation_epoch ≡ some slot) × (t ≡ s) × (slot.op ≡ op))
      ⊎ (acquire_new s op ≡ ok (t, slot))
unfolding acquire
acquire_lem s op {t} {slot} e = ground (arith, same_tuple_iff slot.op op)

module _ (s : AgentState) (op : OperationTuple) (h : SlotsAreWellFormed s)
    (fenced : op.leader_token ≤ s.max_leader_token) where
  fresh_slot-IsWellFormed :
      op.expected_current.activation_epoch < op.target.activation_epoch
      → IsWellFormedSlot s op.plane op.target.activation_epoch (fresh_slot op)
  fresh_slot-IsWellFormed forward = record {
    own_plane = refl;
    own_epoch = refl;
    forward = forward;
    fenced = fenced;
  }

  pub acquire-Advances :
      {t : AgentState} {slot : Reservation}
      → acquire s op ≡ ok (t, slot)
      → Advances s t × (slot.op ≡ op) × IsWellFormedSlot t op.plane op.target.activation_epoch slot
  acquire-Advances {t} {slot} e = elim (acquire_lem s op e) [
    | inl (found, same, own) ↦
        rw same (Advances-refl s h, own, h op.plane op.target.activation_epoch slot found)
    | inr new ↦
        let (same, is_fresh, forward, _) = acquire_new_lem s op new in
        let w = fresh_slot-IsWellFormed forward in
        rw (same, is_fresh)
          (
            set_slot-Advances s h op.plane op.target.activation_epoch (fresh_slot op) w,
            refl,
            IsWellFormedSlot-set_slot _ _ _ w,
          )
  ]

  pub reserve_admitted-Advances : Ensures (λ r. Advances s r.0) (reserve_admitted s op)
  unfolding reserve_admitted
  reserve_admitted-Advances =
      Ensures-step (λ r. Advances s r.0) (acquire s op)
        (λ r. ok (record_step r.0 op StepName.reserve (target_state op none)))
        λ r e.
          let (a, own, w) = acquire-Advances {t = r.0} {slot = r.1} e in
          Advances-trans a
            (record_step-Advances r.0 a.slots op StepName.reserve (target_state op none))

  pub stage_admitted-Advances : Ensures (λ r. Advances s r.0) (stage_admitted s op)
  unfolding stage_admitted
  stage_admitted-Advances =
      Ensures-step (λ r. Advances s r.0) (acquire s op)
        (λ r.
          let staged = staged_slot r.1 in
          ok (
            record_step (set_slot r.0 op.plane op.target.activation_epoch staged) op StepName.stage
              (target_state op none)))
        λ r e.
          let (a, own, w) = acquire-Advances {t = r.0} {slot = r.1} e in
          let w' : IsWellFormedSlot r.0 op.plane op.target.activation_epoch (staged_slot r.1) =
            record {
              own_plane = w.own_plane;
              own_epoch = w.own_epoch;
              forward = w.forward;
              fenced = w.fenced;
            } in
          let b =
            set_slot-Advances r.0 a.slots op.plane op.target.activation_epoch (staged_slot r.1)
              w' in
          Advances-trans a (
            Advances-trans b
              (record_step-Advances _ b.slots op StepName.stage (target_state op none)))
    where
      staged_slot : Reservation → Reservation
      staged_slot slot = record slot { staged_digest = some op.payload_digest }
