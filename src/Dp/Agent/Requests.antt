-- ===== src/Dp/Agent/Requests.antt =====
-- src/dp/agent.ts: `DpAgent` as a whole. A request is a call of one of its methods that change the
-- state; a history is what `serial` makes of requests that come one after the other.
use barycenter.Prelude.{ℕ, Option, none, some, List, [], ◌∷◌}
use barycenter.Dp.Operation.{Plane, ApplyOperation, ActivationEvidence, PublishRecord, ApplyPhase}
use barycenter.Dp.Agent.State.{OperationTuple, Result, ok, err, JournalEntry, AgentState}
use barycenter.Dp.Agent.Verbs.{reserve, stage, commit, abort, fail, release, apply_health, fence}
use barycenter.Dp.Agent.Opening.{Opening, reserve_all}
use barycenter.Dp.Agent.Journal.{
  close_journal, write_journal, release_idle_holder, reclaim_operation, release_stale_slots,
  release_holder_slots, finish_operation, record_publish_intent,
}
use barycenter.Dp.Agent.Prune.{prune}
use barycenter.Dp.Agent.Checks.{assert_invariants}

pub data Request : Type 0 where
  reserve_plane stage_plane abort_plane fail_plane release_plane push_health :
      OperationTuple → Request
  commit_plane : OperationTuple → ActivationEvidence → Request
  fence_leader : ℕ → Request
  reserve_planes : ApplyOperation → Option Opening → Request
  journal_write : JournalEntry → Request
  journal_close : ApplyOperation → ApplyPhase → Request
  idle_holder_release : Request
  reclaim stale_slots_release holder_slots_release : ApplyOperation → Request
  operation_finish : ApplyOperation → List Plane → Request
  intent_record : PublishRecord → Request

-- The new state alone, without the answer.
abbrev pub state_of : {A : Type 0} → Result (AgentState × A) → Result AgentState
state_of (ok r) = ok r.0
state_of (err e) = err e

unfoldable pub handle : AgentState → Request → Result AgentState
handle s (reserve_plane t) = state_of (reserve s t)
handle s (stage_plane t) = state_of (stage s t)
handle s (abort_plane t) = abort s t
handle s (fail_plane t) = fail s t
handle s (release_plane t) = release s t
handle s (push_health t) = state_of (apply_health s t)
handle s (commit_plane t evidence) = state_of (commit s t evidence)
handle s (fence_leader token) = state_of (fence s token)
handle s (reserve_planes op opening) = state_of (reserve_all s op opening)
handle s (journal_write entry) = write_journal s entry
handle s (journal_close op how) = ok (close_journal s op how)
handle s idle_holder_release = ok (release_idle_holder s).0
handle s (reclaim op) = state_of (reclaim_operation s op)
handle s (stale_slots_release op) = ok (release_stale_slots s op)
handle s (holder_slots_release op) = ok (release_holder_slots s op)
handle s (operation_finish op planes) = finish_operation s op planes
handle s (intent_record r) = record_publish_intent s r

-- A request that is rejected, or whose result fails a check, leaves the state as it was.
unfoldable pub transact : AgentState → Request → AgentState
transact s r = elim (handle s r) [
  | err e ↦ s
  | ok t ↦ elim (assert_invariants (some s) (prune t)) [ some v ↦ s | none ↦ prune t ]
]

unfoldable pub run : AgentState → List Request → AgentState
run s [] = s
run s (r ∷ rs) = run (transact s r) rs
