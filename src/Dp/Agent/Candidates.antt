-- ===== src/Dp/Agent/Candidates.antt =====
-- The source's check I6 on the agent's requests: each leaves the last activation as it was, makes it
-- unknown, or takes the candidate that was there.
use barycenter.Prelude.{◌≡◌, refl, false, List, [], ◌∷◌, arith, inl, inr, ◌∙◌, Option-cases, Assoc}
use barycenter.Dp.Operation.{ApplyOperation}
use barycenter.Dp.Agent.State.{Result, ok, err, AgentState, TerminalKey, Position, terminal_keys}
use barycenter.Dp.Agent.Identity.{op_author, same_record_identity}
use barycenter.Dp.Agent.Settle.{epochs_of, planes_of_operation}
use barycenter.Dp.Agent.Verbs.{abort, fail}
use barycenter.Dp.Agent.Journal.{
  close_journal, write_journal, release_idle_holder, reclaim_operation, release_stale_slots,
  release_holder_slots, record_publish_intent,
}
use barycenter.Dp.Agent.Prune.{
  prune, prune_evidence, prune_terminal, prune_terminals, prune_end, prune_completed,
}
use barycenter.Dp.Agent.Checks.{baseline_is_unproposed}
use barycenter.Dp.Agent.Requests.{
  Request, reserve_plane, stage_plane, abort_plane, fail_plane, release_plane, push_health,
  commit_plane, fence_leader, reserve_planes, journal_write, journal_close, idle_holder_release,
  reclaim, stale_slots_release, holder_slots_release, operation_finish, intent_record, handle,
  state_of,
}
use barycenter.Dp.Agent.Ensures.{Ensures, Ensures-of, Ensures-result}
use barycenter.Dp.Agent.Baseline.{
  IsUnsettled, IsFromCandidate, Kept, drop_own_slots-IsUnsettled, reserve-last, stage-last,
  commit-last, apply_health-last, finalize-last, release-last, fence-IsFromCandidate,
}
use barycenter.Dp.Agent.Promotion.{
  IsFromCandidate-then, reserve_all-IsFromCandidate, drop_all_slots-last,
  finish_operation-IsFromCandidate,
}

release_idle_holder-last :
    (s : AgentState) → (release_idle_holder s).0.last_activated ≡ s.last_activated
unfolding release_idle_holder
release_idle_holder-last s = elim (Option-cases s.active_operation) [
  | inl idle ↦ ground arith
  | inr (h, held) ↦ let same = drop_all_slots-last s h.epochs h.planes in ground (arith, same)
]

release_stale_slots-last :
    (s : AgentState) (op : ApplyOperation)
    → (release_stale_slots s op).last_activated ≡ s.last_activated
unfolding release_stale_slots
release_stale_slots-last s op = elim (Option-cases s.active_operation) [
  | inl idle ↦
      let same =
        (drop_own_slots-IsUnsettled s (op_author op) (epochs_of op)
          (planes_of_operation op)).last_kept in
      ground (arith, same)
  | inr (h, held) ↦ ground arith
]

release_holder_slots-last :
    (s : AgentState) (op : ApplyOperation)
    → (release_holder_slots s op).last_activated ≡ s.last_activated
unfolding release_holder_slots
release_holder_slots-last s op = elim (Option-cases s.active_operation) [
  | inl idle ↦ ground arith
  | inr (h, held) ↦
      let same = (drop_own_slots-IsUnsettled s (op_author op) h.epochs h.planes).last_kept in
      ground (arith, same)
]

Ensures-state_of :
    {A : Type 0} (s : AgentState) (m : Result (AgentState × A))
    → Kept s m
    → Ensures (λ t. IsFromCandidate s t) (state_of m)
Ensures-state_of s (ok r) h = inl h
Ensures-state_of s (err e) h = tt

Ensures-state_from :
    {A : Type 0} (s : AgentState) (m : Result (AgentState × A))
    → Ensures (λ r. IsFromCandidate s r.0) m
    → Ensures (λ t. IsFromCandidate s t) (state_of m)
Ensures-state_from s (ok r) h = h
Ensures-state_from s (err e) h = tt

Ensures-kept :
    (s : AgentState) (m : Result AgentState)
    → Ensures (λ t. t.last_activated ≡ s.last_activated) m
    → Ensures (λ t. IsFromCandidate s t) m
Ensures-kept s (ok r) h = inl h
Ensures-kept s (err e) h = tt

handle-IsFromCandidate :
    (s : AgentState) (r : Request) → Ensures (λ t. IsFromCandidate s t) (handle s r)
unfolding handle abort fail
handle-IsFromCandidate s (reserve_plane t) = Ensures-state_of s _ (reserve-last s t)
handle-IsFromCandidate s (stage_plane t) = Ensures-state_of s _ (stage-last s t)
handle-IsFromCandidate s (abort_plane t) = Ensures-kept s _ (finalize-last s t _)
handle-IsFromCandidate s (fail_plane t) = Ensures-kept s _ (finalize-last s t _)
handle-IsFromCandidate s (release_plane t) = Ensures-kept s _ (release-last s t)
handle-IsFromCandidate s (push_health t) = Ensures-state_of s _ (apply_health-last s t)
handle-IsFromCandidate s (commit_plane t evidence) = Ensures-state_of s _ (commit-last s t evidence)
handle-IsFromCandidate s (fence_leader token) =
    Ensures-state_from s _ (fence-IsFromCandidate s token)
handle-IsFromCandidate s (reserve_planes op opening) =
    Ensures-state_from s _ (reserve_all-IsFromCandidate s op opening)
handle-IsFromCandidate s (journal_write entry) =
    unfold write_journal in
    Ensures-kept s _ (Ensures-of _ (write_journal s entry) (λ t e. ground arith))
handle-IsFromCandidate s (journal_close op how) = unfold close_journal in inl (ground arith)
handle-IsFromCandidate s idle_holder_release = inl (release_idle_holder-last s)
handle-IsFromCandidate s (reclaim op) =
    unfold reclaim_operation in
    Ensures-state_of s _ (Ensures-of _ (reclaim_operation s op) (λ t e. ground arith))
handle-IsFromCandidate s (stale_slots_release op) = inl (release_stale_slots-last s op)
handle-IsFromCandidate s (holder_slots_release op) = inl (release_holder_slots-last s op)
handle-IsFromCandidate s (operation_finish op planes) = finish_operation-IsFromCandidate s op planes
handle-IsFromCandidate s (intent_record r) =
    unfold record_publish_intent in
    Ensures-kept s _ (Ensures-of _ (record_publish_intent s r) (λ t e. ground arith))

prune_end-IsUnsettled :
    (live : List TerminalKey) (s : AgentState) (k : TerminalKey) (meta : Position)
    → IsUnsettled s (prune_end live s k meta)
unfolding prune_end
prune_end-IsUnsettled live s k meta = record {
  last_kept = ground arith;
  candidate_kept = ground arith;
}

prune_terminals-last :
    (live : List TerminalKey) (m : Assoc TerminalKey Position) (s : AgentState)
    → (prune_terminals live m s).last_activated ≡ s.last_activated
unfolding prune_terminals
prune_terminals-last live [] s = refl
prune_terminals-last live ((k, meta) ∷ m) s =
    prune_terminals-last live m (prune_end live s k meta)
    ∙ (prune_end-IsUnsettled live s k meta).last_kept

prune_evidence-last : (s : AgentState) → (prune_evidence s).last_activated ≡ s.last_activated
unfolding prune_evidence
prune_evidence-last s = ground arith

prune_last : (s : AgentState) → (prune s).last_activated ≡ s.last_activated
unfolding prune prune_completed prune_terminal
prune_last s = prune_terminals-last _ _ (prune_evidence s) ∙ prune_evidence-last s

unproposed_lem : (s t : AgentState) → IsFromCandidate s t → baseline_is_unproposed s t ≡ false
unfolding baseline_is_unproposed same_record_identity
unproposed_lem s t h = elim (Option-cases t.last_activated) [
  | inl absent ↦ ground arith
  | inr (r, there) ↦ ground arith
]

-- Whatever a request makes of any state, the source's check that the last activation comes only
-- from the candidate passes on it: the last activation is as it was, unknown, or the candidate that
-- was there before.
pub handle-prune-IsFromCandidate :
    (s : AgentState) (r : Request) {t : AgentState}
    → handle s r ≡ ok t
    → (baseline_is_unproposed s (prune t) ≡ false) × IsFromCandidate s (prune t)
handle-prune-IsFromCandidate s r {t} e =
    let h = Ensures-result (λ u. IsFromCandidate s u) _ (handle-IsFromCandidate s r) e in
    let pruned = IsFromCandidate-then s t (prune t) h (prune_last t) in
    (unproposed_lem s (prune t) pruned, pruned)
