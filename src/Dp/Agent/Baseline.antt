-- ===== src/Dp/Agent/Baseline.antt =====
-- The last activation comes from the candidate that was there (the source's I6): what each function
-- does to it.
use barycenter.Prelude.{
  ℕ, ◌≡◌, refl, Option, none, some, List, [], ◌∷◌, arith, ◌⊎◌, inl, inr, ◌∙◌, ap, if◌then◌else◌,
}
use barycenter.Dp.Operation.{at, Plane, PerPlane, ActivationEvidence}
use barycenter.Dp.Agent.State.{
  PlaneAuthor, OperationTuple, PlaneAck, TerminalKind, Result, ok, ◌>>=◌, StepName, ActiveOperation,
  AgentState, Reservation,
}
use barycenter.Dp.Agent.Identity.{owns_slot_op, slot_at, holder_author}
use barycenter.Dp.Agent.Verbs.{
  reserve, reserve_admitted, stage, stage_admitted, commit, commit_admitted, move_plane, propose,
  apply_health, apply_health_admitted, release, fence, set_token, unless_replayed,
}
use barycenter.Dp.Agent.Rules.{
  set_slot, delete_slot, admit, acquire, acquire_new, record_step, release_own_slot, finish,
  finalize,
}
use barycenter.Dp.Agent.Settle.{
  settle_candidate, finalize_candidate, drop_own_slots, close_superseded, clear_holder, supersede,
}
use barycenter.Dp.Agent.VerbsAdvance.{fence_lem}
use barycenter.Dp.Agent.FenceAdvance.{fence_holder_lem}
use barycenter.Dp.Agent.Admission.{admit_lem}
use barycenter.Dp.Agent.Replay.{committed_state, commit_new_lem, commit_admitted_lem}
use barycenter.Dp.Agent.Ensures.{Ensures, Ensures-of, Ensures-step, Result-cases}

-- The candidate and the last activation are as they were.
pub record IsUnsettled (s t : AgentState) : Type 0 where
  pub last_kept : t.last_activated ≡ s.last_activated
  pub candidate_kept : t.pending_activation ≡ s.pending_activation

-- The last activation is as it was, unknown, or the candidate that was there.
abbrev pub IsFromCandidate : AgentState → AgentState → Type 0
IsFromCandidate s t =
    (t.last_activated ≡ s.last_activated)
    ⊎ ((t.last_activated ≡ none) ⊎ (t.last_activated ≡ s.pending_activation))

IsUnsettled-trans : {s t u : AgentState} → IsUnsettled s t → IsUnsettled t u → IsUnsettled s u
IsUnsettled-trans a b = record {
  last_kept = b.last_kept ∙ a.last_kept;
  candidate_kept = b.candidate_kept ∙ a.candidate_kept;
}

pub IsFromCandidate-before :
    (s t u : AgentState) → IsUnsettled s t → IsFromCandidate t u → IsFromCandidate s u
IsFromCandidate-before s t u a h = ground arith

pub IsFromCandidate-after :
    (s t u : AgentState) → IsFromCandidate s t → IsUnsettled t u → IsFromCandidate s u
IsFromCandidate-after s t u h b = ground arith

pub drop_own_slots-IsUnsettled :
    (s : AgentState) (who : PlaneAuthor) (epochs : PerPlane (Option ℕ)) (ps : List Plane)
    → IsUnsettled s (drop_own_slots s who epochs ps)
unfolding drop_own_slots delete_slot
drop_own_slots-IsUnsettled s who epochs [] = record { last_kept = refl; candidate_kept = refl }
drop_own_slots-IsUnsettled s who epochs (p ∷ ps) =
    IsUnsettled-trans (record { last_kept = ground arith; candidate_kept = ground arith })
      (drop_own_slots-IsUnsettled
        (elim (at epochs p) [
          | none ↦ s
          | some epoch ↦ if owns_slot_op (slot_at s p epoch) who then delete_slot s p epoch else s
        ])
        who epochs ps)

pub finalize_candidate-IsFromCandidate :
    (s : AgentState) (who : PlaneAuthor) → IsFromCandidate s (finalize_candidate s who)
unfolding finalize_candidate settle_candidate
finalize_candidate-IsFromCandidate s who = ground arith

close_superseded-IsUnsettled :
    (s : AgentState) (who : PlaneAuthor) → IsUnsettled s (close_superseded s who)
unfolding close_superseded
close_superseded-IsUnsettled s who = record {
  last_kept = ground arith;
  candidate_kept = ground arith;
}

pub clear_holder-IsUnsettled :
    (s : AgentState) (who : PlaneAuthor) → IsUnsettled s (clear_holder s who)
unfolding clear_holder
clear_holder-IsUnsettled s who = record { last_kept = ground arith; candidate_kept = ground arith }

pub supersede-IsFromCandidate :
    (s : AgentState) (holder : ActiveOperation) → IsFromCandidate s (supersede s holder)
unfolding supersede
supersede-IsFromCandidate s holder =
    let who = holder_author holder in
    let s1 = drop_own_slots s who holder.epochs holder.planes in
    let s2 = close_superseded s1 who in
    let a =
      IsUnsettled-trans (drop_own_slots-IsUnsettled s who holder.epochs holder.planes)
        (close_superseded-IsUnsettled s1 who) in
    let b = finalize_candidate-IsFromCandidate s2 who in
    IsFromCandidate-after s (finalize_candidate s2 who)
      (clear_holder (finalize_candidate s2 who) who)
      (IsFromCandidate-before s s2 (finalize_candidate s2 who) a b)
      (clear_holder-IsUnsettled (finalize_candidate s2 who) who)

-- A step of a transition on one plane.
abbrev pub Kept : {A : Type 0} → AgentState → Result (AgentState × A) → Type 0
Kept s m = Ensures (λ r. r.0.last_activated ≡ s.last_activated) m

step-last :
    (s : AgentState) (op : OperationTuple) (step : StepName)
    (rest : AgentState → Result (AgentState × PlaneAck))
    → ((u : AgentState) (r : AgentState × PlaneAck)
        → rest u ≡ ok r
        → r.0.last_activated ≡ u.last_activated)
    → Kept s (admit s op step >>= λ r. unless_replayed r.1 r.0 (rest r.0))
step-last s op step rest kept =
    Ensures-step (λ r. r.0.last_activated ≡ s.last_activated) (admit s op step)
      (λ r. unless_replayed r.1 r.0 (rest r.0))
      λ r e.
        let (_, raised) = admit_lem s op step e in
        Ensures-of (λ q. q.0.last_activated ≡ s.last_activated) (unless_replayed r.1 r.0 (rest r.0))
          λ q d. by_replay r.1 r.0 q (ap (λ u. u.last_activated) raised) d
  where
    by_replay :
        (replay : Option PlaneAck) (u : AgentState) (q : AgentState × PlaneAck)
        → u.last_activated ≡ s.last_activated
        → unless_replayed replay u (rest u) ≡ ok q
        → q.0.last_activated ≡ s.last_activated
    by_replay none u q same d = kept u q d ∙ same
    by_replay (some ack) u q same d = cc

acquire-last :
    (s : AgentState) (op : OperationTuple) {r : AgentState × Reservation}
    → acquire s op ≡ ok r
    → r.0.last_activated ≡ s.last_activated
unfolding acquire acquire_new set_slot
acquire-last s op e = ground arith

reserve_admitted-last :
    (s : AgentState) (op : OperationTuple) (r : AgentState × PlaneAck)
    → reserve_admitted s op ≡ ok r
    → r.0.last_activated ≡ s.last_activated
unfolding reserve_admitted record_step
reserve_admitted-last s op r e = elim (Result-cases (acquire s op)) [
  | inl (why, bad) ↦ absurd (ground arith)
  | inr (q, got) ↦ let same = acquire-last s op got in ground (arith, same)
]

stage_admitted-last :
    (s : AgentState) (op : OperationTuple) (r : AgentState × PlaneAck)
    → stage_admitted s op ≡ ok r
    → r.0.last_activated ≡ s.last_activated
unfolding stage_admitted record_step set_slot
stage_admitted-last s op r e = elim (Result-cases (acquire s op)) [
  | inl (why, bad) ↦ absurd (ground arith)
  | inr (q, got) ↦ let same = acquire-last s op got in ground (arith, same)
]

committed_state-last :
    (s : AgentState) (op : OperationTuple) (evidence : ActivationEvidence)
    → (committed_state s op evidence).last_activated ≡ s.last_activated
unfolding move_plane propose finish release_own_slot delete_slot
committed_state-last s op evidence = ground arith

commit_admitted-last :
    (s : AgentState) (op : OperationTuple) (evidence : ActivationEvidence)
    (r : AgentState × PlaneAck)
    → commit_admitted s op evidence ≡ ok r
    → r.0.last_activated ≡ s.last_activated
unfolding record_step
commit_admitted-last s op evidence r e = elim (commit_admitted_lem s op evidence e) [
  | inl (here, same) ↦ rw same refl
  | inr moved ↦ rw ((commit_new_lem s op evidence moved).1) (committed_state-last s op evidence)
]

apply_health_admitted-last :
    (s : AgentState) (op : OperationTuple) (r : AgentState × PlaneAck)
    → apply_health_admitted s op ≡ ok r
    → r.0.last_activated ≡ s.last_activated
unfolding apply_health_admitted record_step
apply_health_admitted-last s op r e = ground arith

pub reserve-last : (s : AgentState) (op : OperationTuple) → Kept s (reserve s op)
unfolding reserve
reserve-last s op =
    step-last s op StepName.reserve (λ u. reserve_admitted u op)
      (λ u r e. reserve_admitted-last u op r e)

pub stage-last : (s : AgentState) (op : OperationTuple) → Kept s (stage s op)
unfolding stage
stage-last s op =
    step-last s op StepName.stage (λ u. stage_admitted u op) (λ u r e. stage_admitted-last u op r e)

pub commit-last :
    (s : AgentState) (op : OperationTuple) (evidence : ActivationEvidence)
    → Kept s (commit s op evidence)
unfolding commit
commit-last s op evidence =
    step-last s op StepName.commit (λ u. commit_admitted u op evidence)
      (λ u r e. commit_admitted-last u op evidence r e)

pub apply_health-last : (s : AgentState) (op : OperationTuple) → Kept s (apply_health s op)
unfolding apply_health
apply_health-last s op =
    step-last s op StepName.health (λ u. apply_health_admitted u op)
      (λ u r e. apply_health_admitted-last u op r e)

pub finalize-last :
    (s : AgentState) (op : OperationTuple) (how : TerminalKind)
    → Ensures (λ t. t.last_activated ≡ s.last_activated) (finalize s op how)
unfolding finalize finish release_own_slot delete_slot
finalize-last s op how = Ensures-of _ (finalize s op how) (λ t e. ground arith)

pub release-last :
    (s : AgentState) (op : OperationTuple)
    → Ensures (λ t. t.last_activated ≡ s.last_activated) (release s op)
unfolding release release_own_slot delete_slot
release-last s op = Ensures-of _ (release s op) (λ t e. ground arith)

pub fence-IsFromCandidate :
    (s : AgentState) (token : ℕ) → Ensures (λ r. IsFromCandidate s r.0) (fence s token)
fence-IsFromCandidate s token =
    Ensures-of (λ r. IsFromCandidate s r.0) (fence s token)
      λ r e.
        let (_, same) = fence_lem s token e in
        rw same (elim (fence_holder_lem (set_token s token) token) [
          | inl kept ↦ rw kept (inl refl)
          | inr (holder, _, _, gone) ↦
              rw gone (supersede-IsFromCandidate (set_token s token) holder)
        ])
