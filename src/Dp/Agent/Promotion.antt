-- ===== src/Dp/Agent/Promotion.antt =====
-- What opening an operation, finishing it and dropping slots make of the last activation.
use barycenter.Prelude.{
  ℕ, ◌≡◌, refl, Option, none, some, List, [], ◌∷◌, arith, ◌⊎◌, inl, inr, ◌∙◌, is_some, Bool,
  Option-cases,
}
use barycenter.Dp.Operation.{at, Plane, PerPlane, ApplyOperation, planes_of}
use barycenter.Dp.Agent.State.{OperationTuple, ok, ◌>>=◌, JournalEntry, AgentState, terminal_keys}
use barycenter.Dp.Agent.Identity.{op_author, tuple_for, tuples_for}
use barycenter.Dp.Agent.Rules.{release_own_slot, delete_slot}
use barycenter.Dp.Agent.Settle.{finalize_candidate, clear_holder, supersede}
use barycenter.Dp.Agent.Verbs.{reserve}
use barycenter.Dp.Agent.Opening.{
  Opening, abort_orphan, abort_orphans, clear_orphan, clear_stale_journal, reserve_each,
  open_journal, hold, reserve_clean, reserve_tuples, reserve_all, holder_of, epochs_among,
}
use barycenter.Dp.Agent.Journal.{drop_all_slots, release_planes, finish_operation}
use barycenter.Dp.Agent.Ensures.{Ensures, Ensures-of, Ensures-step, Ensures-result, Ensures-map}
use barycenter.Dp.Agent.Baseline.{
  IsUnsettled, IsFromCandidate, IsFromCandidate-before, Kept, supersede-IsFromCandidate,
  finalize_candidate-IsFromCandidate, clear_holder-IsUnsettled, reserve-last,
}
use barycenter.Dp.Agent.OpeningAdvance.{reserve_tuples_lem}

abort_orphans-last :
    (s : AgentState) (mine theirs : List OperationTuple)
    → IsUnsettled s (abort_orphans s mine theirs)
unfolding abort_orphans abort_orphan
abort_orphans-last s mine [] = record { last_kept = refl; candidate_kept = refl }
abort_orphans-last s mine (t ∷ ts) =
    let h = abort_orphans-last (abort_orphan s mine t) mine ts in
    record { last_kept = ground arith; candidate_kept = ground arith }

clear_orphan-IsFromCandidate :
    (s : AgentState) (mine : List OperationTuple) (stale : JournalEntry)
    → Ensures (λ t. IsFromCandidate s t) (clear_orphan s mine stale)
unfolding clear_orphan
clear_orphan-IsFromCandidate s mine stale =
    Ensures-step (λ t. IsFromCandidate s t) (tuples_for stale.op (planes_of stale.op))
      (λ theirs. ok (
        supersede (abort_orphans s mine theirs)
          (holder_of stale.op (planes_of stale.op) (epochs_among theirs))))
      λ theirs _.
        let holder = holder_of stale.op (planes_of stale.op) (epochs_among theirs) in
        let cleared = abort_orphans s mine theirs in
        IsFromCandidate-before s cleared (supersede cleared holder)
          (abort_orphans-last s mine theirs) (supersede-IsFromCandidate cleared holder)

clear_stale_journal_lem :
    (s : AgentState) (op : ApplyOperation) (mine : List OperationTuple) (opening : Bool)
    (stale : JournalEntry) {t : AgentState}
    → s.journal ≡ some stale
    → clear_stale_journal s op mine opening ≡ ok t
    → (t ≡ s) ⊎ (clear_orphan s mine stale ≡ ok t)
unfolding clear_stale_journal
clear_stale_journal_lem s op mine opening stale there e = ground arith

clear_stale_journal-none :
    (s : AgentState) (op : ApplyOperation) (mine : List OperationTuple) (opening : Bool)
    {t : AgentState}
    → s.journal ≡ none
    → clear_stale_journal s op mine opening ≡ ok t
    → t ≡ s
unfolding clear_stale_journal
clear_stale_journal-none s op mine opening absent e = ground arith

clear_stale_journal-IsFromCandidate :
    (s : AgentState) (op : ApplyOperation) (mine : List OperationTuple) (opening : Bool)
    → Ensures (λ t. IsFromCandidate s t) (clear_stale_journal s op mine opening)
clear_stale_journal-IsFromCandidate s op mine opening =
    Ensures-of (λ t. IsFromCandidate s t) (clear_stale_journal s op mine opening)
      λ t e. elim (Option-cases s.journal) [
        | inl absent ↦ rw (clear_stale_journal-none s op mine opening absent e) (inl refl)
        | inr (stale, there) ↦ elim (clear_stale_journal_lem s op mine opening stale there e) [
          | inl same ↦ rw same (inl refl)
          | inr cleared ↦
              Ensures-result (λ t. IsFromCandidate s t) _
                (clear_orphan-IsFromCandidate s mine stale) cleared
        ]
      ]

reserve_each-last : (s : AgentState) (ts : List OperationTuple) → Kept s (reserve_each s ts)
unfolding reserve_each
reserve_each-last s [] = refl
reserve_each-last s (t ∷ ts) =
    Ensures-step (λ r. r.0.last_activated ≡ s.last_activated) (reserve s t)
      (λ r. reserve_each r.0 ts >>= λ q. ok (q.0, r.1 ∷ q.1))
      λ r e.
        Ensures-step (λ r. r.0.last_activated ≡ s.last_activated) (reserve_each r.0 ts)
          (λ q. ok (q.0, r.1 ∷ q.1))
          λ q d.
            Ensures-result (λ q. q.0.last_activated ≡ r.0.last_activated) _
              (reserve_each-last r.0 ts) d
            ∙ Ensures-result (λ q. q.0.last_activated ≡ s.last_activated) _ (reserve-last s t) e

open_journal-last :
    (s : AgentState) (op : ApplyOperation) (ts : List OperationTuple) (opening : Option Opening)
    → (open_journal (hold s op ts) op opening).last_activated ≡ s.last_activated
unfolding open_journal
open_journal-last s op ts none = refl
open_journal-last s op ts (some o) = ground arith

pub IsFromCandidate-then :
    (s t u : AgentState)
    → IsFromCandidate s t
    → u.last_activated ≡ t.last_activated
    → IsFromCandidate s u
IsFromCandidate-then s t u h e = ground arith

reserve_clean-IsFromCandidate :
    (s : AgentState) (op : ApplyOperation) (ts : List OperationTuple) (opening : Option Opening)
    → Ensures (λ r. IsFromCandidate s r.0) (reserve_clean s op ts opening)
unfolding reserve_clean
reserve_clean-IsFromCandidate s op ts opening =
    Ensures-step (λ r. IsFromCandidate s r.0) (clear_stale_journal s op ts (is_some opening))
      (λ t. reserve_each t ts >>= λ q. ok (open_journal (hold q.0 op ts) op opening, q.1))
      λ t e.
        Ensures-step (λ r. IsFromCandidate s r.0) (reserve_each t ts)
          (λ q. ok (open_journal (hold q.0 op ts) op opening, q.1))
          λ q d.
            IsFromCandidate-then s t (open_journal (hold q.0 op ts) op opening)
              (Ensures-result (λ t. IsFromCandidate s t) _
                (clear_stale_journal-IsFromCandidate s op ts (is_some opening)) e)
              (open_journal-last q.0 op ts opening
                ∙ Ensures-result (λ q. q.0.last_activated ≡ t.last_activated) _
                    (reserve_each-last t ts) d)

pub reserve_all-IsFromCandidate :
    (s : AgentState) (op : ApplyOperation) (opening : Option Opening)
    → Ensures (λ r. IsFromCandidate s r.0) (reserve_all s op opening)
unfolding reserve_all
reserve_all-IsFromCandidate s op opening =
    Ensures-step (λ r. IsFromCandidate s r.0) (tuples_for op (planes_of op))
      (λ ts. reserve_tuples s op ts opening)
      λ ts _.
        Ensures-of (λ r. IsFromCandidate s r.0) (reserve_tuples s op ts opening)
          λ r e.
            Ensures-result (λ r. IsFromCandidate s r.0) _
              (reserve_clean-IsFromCandidate s op ts opening) (reserve_tuples_lem s op ts opening e)

pub drop_all_slots-last :
    (s : AgentState) (epochs : PerPlane (Option ℕ)) (ps : List Plane)
    → (drop_all_slots s epochs ps).last_activated ≡ s.last_activated
unfolding drop_all_slots delete_slot
drop_all_slots-last s epochs [] = refl
drop_all_slots-last s epochs (p ∷ ps) =
    drop_all_slots-last (elim (at epochs p) [ none ↦ s | some epoch ↦ delete_slot s p epoch ])
      epochs ps
    ∙ ground arith

release_own_slot-last :
    (s : AgentState) (t : OperationTuple) → (release_own_slot s t).last_activated ≡ s.last_activated
unfolding release_own_slot delete_slot
release_own_slot-last s t = ground arith

release_planes-last :
    (s : AgentState) (op : ApplyOperation) (ps : List Plane)
    → Ensures (λ t. t.last_activated ≡ s.last_activated) (release_planes s op ps)
unfolding release_planes
release_planes-last s op [] = refl
release_planes-last s op (p ∷ ps) =
    Ensures-step (λ t. t.last_activated ≡ s.last_activated) (tuple_for op p)
      (λ t. release_planes (release_own_slot s t) op ps)
      λ t _.
        Ensures-map (λ u. u.last_activated ≡ (release_own_slot s t).last_activated)
          (λ u. u.last_activated ≡ s.last_activated) (release_planes (release_own_slot s t) op ps)
          (release_planes-last (release_own_slot s t) op ps)
          (λ u _ b. b ∙ release_own_slot-last s t)

pub finish_operation-IsFromCandidate :
    (s : AgentState) (op : ApplyOperation) (planes : List Plane)
    → Ensures (λ t. IsFromCandidate s t) (finish_operation s op planes)
unfolding finish_operation
finish_operation-IsFromCandidate s op planes =
    Ensures-step (λ t. IsFromCandidate s t)
      (release_planes (finalize_candidate s (op_author op)) op planes)
      (λ u. ok (clear_holder u (op_author op)))
      λ u e.
        let settled = finalize_candidate s (op_author op) in
        IsFromCandidate-then s settled (clear_holder u (op_author op))
          (finalize_candidate-IsFromCandidate s (op_author op))
          ((clear_holder-IsUnsettled u (op_author op)).last_kept
            ∙ Ensures-result (λ t. t.last_activated ≡ settled.last_activated) _
                (release_planes-last settled op planes) e)
