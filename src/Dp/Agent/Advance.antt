-- ===== src/Dp/Agent/Advance.antt =====
-- What no operation of the agent undoes: the highest token, the planes' epochs and the journal's
-- sequence number do not fall, and slots stay well formed. This file has the shared rules.
use barycenter.Prelude.{
  ℕ, ◌≤◌, ◌≡◌, refl, Option, List, [], ◌∷◌, arith, Bool-cases, Option-cases, inl, inr,
}
use barycenter.Dp.Operation.{Plane, http, stream, at, PerPlane}
use barycenter.Dp.Agent.State.{
  PlaneAuthor, PlaneState, OperationTuple, TerminalKind, Reservation, ActiveOperation, StepName,
  AgentState,
}
use barycenter.Dp.Agent.Identity.{slot_at, holder_author, owns_slot_op}
use barycenter.Dp.Agent.Rules.{
  set_slot, delete_slot, raise_token, record_step, release_own_slot, finish, owns_slot,
}
use barycenter.Dp.Agent.Settle.{
  finalize_candidate, drop_own_slots, close_superseded, clear_holder, supersede,
}
use barycenter.Dp.Agent.Opening.{seq_of}
use barycenter.Dp.Agent.Slots.{
  IsWellFormedSlot, SlotsAreWellFormed, set_slot-SlotsAreWellFormed, delete_slot-SlotsAreWellFormed,
}

abbrev pub epoch_at : AgentState → Plane → ℕ
epoch_at s p = (at s.planes p).coordinate.activation_epoch

pub record Advances (s t : AgentState) : Type 0 where
  pub token : s.max_leader_token ≤ t.max_leader_token
  pub http_epoch : epoch_at s http ≤ epoch_at t http
  pub stream_epoch : epoch_at s stream ≤ epoch_at t stream
  pub sequence : seq_of s.journal ≤ seq_of t.journal
  pub slots : SlotsAreWellFormed t

pub Advances-refl : (s : AgentState) → SlotsAreWellFormed s → Advances s s
Advances-refl s h = record {
  token = omega arith;
  http_epoch = omega arith;
  stream_epoch = omega arith;
  sequence = omega arith;
  slots = h;
}

pub Advances-trans : {s t u : AgentState} → Advances s t → Advances t u → Advances s u
Advances-trans a b = record {
  token = omega arith;
  http_epoch = omega arith;
  stream_epoch = omega arith;
  sequence = omega arith;
  slots = b.slots;
}

-- Only tokens and slots have changed.
pub Advances-slots :
    {s t : AgentState}
    → s.max_leader_token ≤ t.max_leader_token
    → t.planes ≡ s.planes
    → t.journal ≡ s.journal
    → SlotsAreWellFormed t
    → Advances s t
Advances-slots token planes journal slots = record {
  token = token;
  http_epoch = ground arith;
  stream_epoch = ground arith;
  sequence = ground arith;
  slots = slots;
}

-- Neither tokens nor slots have changed.
pub SlotsAreWellFormed-frame :
    {s t : AgentState}
    → t.max_leader_token ≡ s.max_leader_token
    → t.reservations ≡ s.reservations
    → SlotsAreWellFormed s
    → SlotsAreWellFormed t
SlotsAreWellFormed-frame token same h p e slot found =
    let w = h p e slot (rw same at found) in
    record {
      own_plane = w.own_plane;
      own_epoch = w.own_epoch;
      forward = w.forward;
      fenced = rw token w.fenced;
    }

pub Advances-frame :
    {s t : AgentState}
    → SlotsAreWellFormed s
    → t.max_leader_token ≡ s.max_leader_token
    → t.planes ≡ s.planes
    → t.reservations ≡ s.reservations
    → t.journal ≡ s.journal
    → Advances s t
Advances-frame h token planes same journal =
    Advances-slots (omega arith) planes journal (SlotsAreWellFormed-frame token same h)

module _ (s : AgentState) (h : SlotsAreWellFormed s) where
  pub delete_slot-Advances : (p : Plane) (e : ℕ) → Advances s (delete_slot s p e)
  unfolding delete_slot
  delete_slot-Advances p e =
      Advances-slots (omega arith) refl refl (delete_slot-SlotsAreWellFormed s p e h)

  pub set_slot-Advances :
      (p : Plane) (e : ℕ) (slot : Reservation)
      → IsWellFormedSlot s p e slot
      → Advances s (set_slot s p e slot)
  unfolding set_slot
  set_slot-Advances p e slot w =
      Advances-slots (omega arith) refl refl (set_slot-SlotsAreWellFormed s p e slot h w)

  pub release_own_slot-Advances : (op : OperationTuple) → Advances s (release_own_slot s op)
  unfolding release_own_slot
  release_own_slot-Advances op = elim (Bool-cases (owns_slot s op)) [
    | inl e ↦ rw e (delete_slot-Advances op.plane op.target.activation_epoch)
    | inr e ↦ rw e (Advances-refl s h)
  ]

  pub raise_token-Advances : (token : ℕ) → Advances s (raise_token s token)
  raise_token-Advances token =
      Advances-slots (ground arith) refl refl
        (λ p e slot found. let w = h p e slot found in ground arith)

module _ (s : AgentState) (h : SlotsAreWellFormed s) where
  pub finish-Advances : (op : OperationTuple) (how : TerminalKind) → Advances s (finish s op how)
  unfolding finish
  finish-Advances op how =
      let a = release_own_slot-Advances s h op in
      Advances-trans a (Advances-frame a.slots refl refl refl refl)

  pub record_step-Advances :
      (op : OperationTuple) (step : StepName) (result : PlaneState)
      → Advances s (record_step s op step result).0
  unfolding record_step
  record_step-Advances op step result = Advances-frame h refl refl refl refl

  pub close_superseded-Advances : (who : PlaneAuthor) → Advances s (close_superseded s who)
  unfolding close_superseded
  close_superseded-Advances who = record {
    token = ground arith;
    http_epoch = ground arith;
    stream_epoch = ground arith;
    sequence = ground arith;
    slots = SlotsAreWellFormed-frame (ground arith) (ground arith) h;
  }

  pub clear_holder-Advances : (who : PlaneAuthor) → Advances s (clear_holder s who)
  unfolding clear_holder
  clear_holder-Advances who =
      Advances-frame h (ground arith) (ground arith) (ground arith) (ground arith)

  pub finalize_candidate-Advances : (ids : PlaneAuthor) → Advances s (finalize_candidate s ids)
  unfolding finalize_candidate
  finalize_candidate-Advances ids =
      Advances-frame h (ground arith) (ground arith) (ground arith) (ground arith)

pub drop_own_slots-Advances :
    (s : AgentState) (who : PlaneAuthor) (epochs : PerPlane (Option ℕ)) (ps : List Plane)
    → SlotsAreWellFormed s
    → Advances s (drop_own_slots s who epochs ps)
unfolding drop_own_slots
drop_own_slots-Advances s who epochs [] h = Advances-refl s h
drop_own_slots-Advances s who epochs (p ∷ ps) h = elim (Option-cases (at epochs p)) [
  | inl e ↦ rw e (drop_own_slots-Advances s who epochs ps h)
  | inr (epoch, e) ↦ elim (Bool-cases (owns_slot_op (slot_at s p epoch) who)) [
    | inl own ↦
        let a = delete_slot-Advances s h p epoch in
        rw (e, own)
          (Advances-trans a (drop_own_slots-Advances (delete_slot s p epoch) who epochs ps a.slots))
    | inr other ↦ rw (e, other) (drop_own_slots-Advances s who epochs ps h)
  ]
]

pub supersede-Advances :
    (s : AgentState) (holder : ActiveOperation)
    → SlotsAreWellFormed s
    → Advances s (supersede s holder)
unfolding supersede
supersede-Advances s holder h =
    let who = holder_author holder in
    let a = drop_own_slots-Advances s who holder.epochs holder.planes h in
    let b = close_superseded-Advances _ a.slots who in
    let c = finalize_candidate-Advances _ b.slots who in
    let d = clear_holder-Advances _ c.slots who in
    Advances-trans a (Advances-trans b (Advances-trans c d))
