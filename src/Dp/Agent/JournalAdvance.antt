-- ===== src/Dp/Agent/JournalAdvance.antt =====
-- No operation on the journal or on the right to apply lowers a token, an epoch or the journal's
-- sequence number, and each keeps the slots well formed.
use barycenter.Prelude.{
  ℕ, ◌+◌, ◌≡◌, refl, Option, none, some, List, [], ◌∷◌, arith, Bool-cases, Option-cases, ◌⊎◌, inl,
  inr, is_some,
}
use barycenter.Dp.Operation.{Plane, at, PerPlane, ApplyOperation, ApplyPhase, PublishRecord}
use barycenter.Dp.Agent.State.{ok, JournalEntry, ActiveOperation, AgentState, same_identity}
use barycenter.Dp.Agent.Identity.{op_author, holder_author, tuple_for}
use barycenter.Dp.Agent.Rules.{release_own_slot, delete_slot}
use barycenter.Dp.Agent.Settle.{
  drop_own_slots, clear_holder, finalize_candidate, planes_of_operation, epochs_of,
}
use barycenter.Dp.Agent.Opening.{seq_of}
use barycenter.Dp.Agent.Journal.{
  close_journal, write_journal, drop_all_slots, release_idle_holder, reclaim_operation,
  release_stale_slots, release_holder_slots, release_planes, finish_operation,
  record_publish_intent,
}
use barycenter.Dp.Agent.Ensures.{Ensures, Ensures-of, Ensures-step, Ensures-map, Ensures-result}
use barycenter.Dp.Agent.Slots.{SlotsAreWellFormed}
use barycenter.Dp.Agent.Advance.{
  Advances, Advances-refl, Advances-trans, Advances-frame, SlotsAreWellFormed-frame,
  delete_slot-Advances, release_own_slot-Advances, clear_holder-Advances,
  finalize_candidate-Advances, drop_own_slots-Advances,
}

pub close_journal-Advances :
    (s : AgentState) (op : ApplyOperation) (how : ApplyPhase)
    → SlotsAreWellFormed s
    → Advances s (close_journal s op how)
unfolding close_journal
close_journal-Advances s op how h = record {
  token = ground arith;
  http_epoch = ground arith;
  stream_epoch = ground arith;
  sequence = ground arith;
  slots = SlotsAreWellFormed-frame (ground arith) (ground arith) h;
}

-- What is written is the next entry, by the holder, with a token that is not stale.
pub write_journal_lem :
    (s : AgentState) (entry : JournalEntry) {t : AgentState}
    → write_journal s entry ≡ ok t
    → (t ≡ record s { journal = some entry }) × (entry.seq ≡ seq_of s.journal + 1)
unfolding write_journal
write_journal_lem s entry e = (ground arith, ground arith)

pub write_journal-Advances :
    (s : AgentState) (entry : JournalEntry)
    → SlotsAreWellFormed s
    → Ensures (λ t. Advances s t) (write_journal s entry)
write_journal-Advances s entry h =
    Ensures-of (λ t. Advances s t) (write_journal s entry)
      λ t e.
        let (same, next) = write_journal_lem s entry e in
        rw same (record {
          token = omega arith;
          http_epoch = omega arith;
          stream_epoch = omega arith;
          sequence = omega arith;
          slots = SlotsAreWellFormed-frame refl refl h;
        })

drop_all_slots-Advances :
    (s : AgentState) (epochs : PerPlane (Option ℕ)) (ps : List Plane)
    → SlotsAreWellFormed s
    → Advances s (drop_all_slots s epochs ps)
unfolding drop_all_slots
drop_all_slots-Advances s epochs [] h = Advances-refl s h
drop_all_slots-Advances s epochs (p ∷ ps) h = elim (Option-cases (at epochs p)) [
  | inl e ↦ rw e (drop_all_slots-Advances s epochs ps h)
  | inr (epoch, e) ↦
      let a = delete_slot-Advances s h p epoch in
      rw e (Advances-trans a (drop_all_slots-Advances (delete_slot s p epoch) epochs ps a.slots))
]

release_idle_holder_lem :
    (s : AgentState)
    → ((release_idle_holder s).0 ≡ s)
      ⊎ ((holder : ActiveOperation) × ((release_idle_holder s).0
            ≡ record (drop_all_slots s holder.epochs holder.planes) { active_operation = none }))
unfolding release_idle_holder
release_idle_holder_lem s = elim (Option-cases s.active_operation) [
  | inl idle ↦ inl (ground arith)
  | inr (holder, held) ↦ elim (Bool-cases (is_some s.journal)) [
    | inl busy ↦ inl (ground arith)
    | inr free ↦ inr (holder, ground arith)
  ]
]

pub release_idle_holder-Advances :
    (s : AgentState) → SlotsAreWellFormed s → Advances s (release_idle_holder s).0
release_idle_holder-Advances s h = elim (release_idle_holder_lem s) [
  | inl same ↦ rw same (Advances-refl s h)
  | inr (holder, gone) ↦
      let a = drop_all_slots-Advances s holder.epochs holder.planes h in
      rw gone (Advances-trans a (Advances-frame a.slots refl refl refl refl))
]

pub reclaim_operation-Advances :
    (s : AgentState) (op : ApplyOperation)
    → SlotsAreWellFormed s
    → Ensures (λ r. Advances s r.0) (reclaim_operation s op)
unfolding reclaim_operation
reclaim_operation-Advances s op h =
    Ensures-of (λ r. Advances s r.0) (reclaim_operation s op)
      λ r e. Advances-frame h (ground arith) (ground arith) (ground arith) (ground arith)

release_stale_slots_lem :
    (s : AgentState) (op : ApplyOperation)
    → (release_stale_slots s op ≡ s)
      ⊎ (release_stale_slots s op
          ≡ drop_own_slots s (op_author op) (epochs_of op) (planes_of_operation op))
unfolding release_stale_slots
release_stale_slots_lem s op = ground arith

pub release_stale_slots-Advances :
    (s : AgentState) (op : ApplyOperation)
    → SlotsAreWellFormed s
    → Advances s (release_stale_slots s op)
release_stale_slots-Advances s op h = elim (release_stale_slots_lem s op) [
  | inl same ↦ rw same (Advances-refl s h)
  | inr gone ↦
      rw gone (drop_own_slots-Advances s (op_author op) (epochs_of op) (planes_of_operation op) h)
]

release_holder_slots_lem :
    (s : AgentState) (op : ApplyOperation)
    → (release_holder_slots s op ≡ s)
      ⊎ ((holder : ActiveOperation) × (release_holder_slots s op
            ≡ record (drop_own_slots s (op_author op) holder.epochs holder.planes) {
              active_operation = none;
            }))
unfolding release_holder_slots
release_holder_slots_lem s op = elim (Option-cases s.active_operation) [
  | inl idle ↦ inl (ground arith)
  | inr (holder, held) ↦ elim (Bool-cases (same_identity (holder_author holder) (op_author op))) [
    | inl mine ↦ inr (holder, ground arith)
    | inr other ↦ inl (ground arith)
  ]
]

pub release_holder_slots-Advances :
    (s : AgentState) (op : ApplyOperation)
    → SlotsAreWellFormed s
    → Advances s (release_holder_slots s op)
release_holder_slots-Advances s op h = elim (release_holder_slots_lem s op) [
  | inl same ↦ rw same (Advances-refl s h)
  | inr (holder, gone) ↦
      let a = drop_own_slots-Advances s (op_author op) holder.epochs holder.planes h in
      rw gone (Advances-trans a (Advances-frame a.slots refl refl refl refl))
]

release_planes-Advances :
    (s : AgentState) (op : ApplyOperation) (ps : List Plane)
    → SlotsAreWellFormed s
    → Ensures (λ t. Advances s t) (release_planes s op ps)
unfolding release_planes
release_planes-Advances s op [] h = Advances-refl s h
release_planes-Advances s op (p ∷ ps) h =
    Ensures-step (λ t. Advances s t) (tuple_for op p)
      (λ t. release_planes (release_own_slot s t) op ps)
      λ t _.
        let a = release_own_slot-Advances s h t in
        Ensures-map (λ u. Advances (release_own_slot s t) u) (λ u. Advances s u)
          (release_planes (release_own_slot s t) op ps)
          (release_planes-Advances (release_own_slot s t) op ps a.slots)
          (λ u _ b. Advances-trans a b)

pub finish_operation-Advances :
    (s : AgentState) (op : ApplyOperation) (ps : List Plane)
    → SlotsAreWellFormed s
    → Ensures (λ t. Advances s t) (finish_operation s op ps)
unfolding finish_operation
finish_operation-Advances s op ps h =
    let settled = finalize_candidate s (op_author op) in
    let a = finalize_candidate-Advances s h (op_author op) in
    Ensures-step (λ t. Advances s t) (release_planes settled op ps)
      (λ t. ok (clear_holder t (op_author op)))
      λ t e.
        let b =
          Ensures-result (λ t. Advances settled t) (release_planes settled op ps)
            (release_planes-Advances settled op ps a.slots) e in
        Advances-trans a (Advances-trans b (clear_holder-Advances t b.slots (op_author op)))

pub record_publish_intent-Advances :
    (s : AgentState) (r : PublishRecord)
    → SlotsAreWellFormed s
    → Ensures (λ t. Advances s t) (record_publish_intent s r)
unfolding record_publish_intent
record_publish_intent-Advances s r h =
    Ensures-of (λ t. Advances s t) (record_publish_intent s r)
      λ t e. Advances-frame h (ground arith) (ground arith) (ground arith) (ground arith)
