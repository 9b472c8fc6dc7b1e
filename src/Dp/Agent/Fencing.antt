-- ===== src/Dp/Agent/Fencing.antt =====
-- A leader that has been fenced changes nothing through the operations that check its token.
use barycenter.Prelude.{
  ℕ, ◌<◌, ◌≡◌, refl, lt→ltb, Option, none, some, List, [], ◌∷◌, arith, inl, inr,
}
use barycenter.Dp.Operation.{Plane, ApplyOperation, planes_of}
use barycenter.Dp.Agent.State.{
  OperationTuple, Rejection, stale_leader, ok, err, AgentState, initial, TerminalKind, StepName,
}
use barycenter.Dp.Agent.Identity.{tuples_for}
use barycenter.Dp.Agent.Rules.{admit, finalize}
use barycenter.Dp.Agent.Verbs.{reserve, stage, commit, abort, fail, release, apply_health, fence}
use barycenter.Dp.Agent.Opening.{reserve_all, reserve_tuples, Opening}
use barycenter.Dp.Agent.Journal.{write_journal, record_publish_intent}
use barycenter.Dp.Agent.Requests.{
  Request, reserve_plane, stage_plane, abort_plane, fail_plane, release_plane, push_health,
  commit_plane, fence_leader, reserve_planes, journal_write, intent_record, handle, run,
}
use barycenter.Dp.Agent.Ensures.{Result-cases, Ensures-result}
use barycenter.Dp.Agent.Advance.{Advances}
use barycenter.Dp.Agent.FenceAdvance.{fence-Advances, fence-token}
use barycenter.Dp.Agent.History.{run-Advances, reached-SlotsAreWellFormed}

-- The token that a request is checked by. The ways to give the right to apply back are checked by
-- identity alone.
abbrev pub leader_of : Request → Option ℕ
leader_of (reserve_plane t) = some t.leader_token
leader_of (stage_plane t) = some t.leader_token
leader_of (abort_plane t) = some t.leader_token
leader_of (fail_plane t) = some t.leader_token
leader_of (release_plane t) = some t.leader_token
leader_of (push_health t) = some t.leader_token
leader_of (commit_plane t evidence) = some t.leader_token
leader_of (fence_leader token) = some token
leader_of (reserve_planes op opening) = some op.leader_token
leader_of (journal_write entry) = some entry.op.leader_token
leader_of (intent_record r) = some r.leader_token
leader_of _ = none

module _ (s : AgentState) (t : OperationTuple) (stale : t.leader_token < s.max_leader_token) where
  admit-stale : (step : StepName) → admit s t step ≡ err stale_leader
  unfolding admit
  admit-stale step = rw (lt→ltb _ _ stale)

  finalize-stale : (how : TerminalKind) → finalize s t how ≡ err stale_leader
  unfolding finalize
  finalize-stale how = rw (lt→ltb _ _ stale)

tuples_for-leader_token :
    (op : ApplyOperation) (ps : List Plane) {t : OperationTuple} {ts : List OperationTuple}
    → tuples_for op ps ≡ ok (t ∷ ts)
    → t.leader_token ≡ op.leader_token
unfolding tuples_for
tuples_for-leader_token op [] e = cc
tuples_for-leader_token op (p ∷ ps) e = ground arith

reserve_tuples-stale :
    (s : AgentState) (op : ApplyOperation) (ts : List OperationTuple) (opening : Option Opening)
    → tuples_for op (planes_of op) ≡ ok ts
    → op.leader_token < s.max_leader_token
    → (e : Rejection) × (reserve_tuples s op ts opening ≡ err e)
unfolding reserve_tuples
reserve_tuples-stale s op [] opening made stale = (_, refl)
reserve_tuples-stale s op (t ∷ ts) opening made stale =
    (stale_leader, ground (arith, tuples_for-leader_token op (planes_of op) made))

reserve_all-stale :
    (s : AgentState) (op : ApplyOperation) (opening : Option Opening)
    → op.leader_token < s.max_leader_token
    → (e : Rejection) × (reserve_all s op opening ≡ err e)
unfolding reserve_all
reserve_all-stale s op opening stale = elim (Result-cases (tuples_for op (planes_of op))) [
  | inl (e, bad) ↦ (e, rw bad)
  | inr (ts, made) ↦ rw made (reserve_tuples-stale s op ts opening made stale)
]

pub handle-stale :
    (s : AgentState) (r : Request) {n : ℕ}
    → leader_of r ≡ some n
    → n < s.max_leader_token
    → (e : Rejection) × (handle s r ≡ err e)
unfolding handle
handle-stale s (reserve_plane t) e stale =
    (stale_leader, unfold reserve in rw (admit-stale s t (ground arith) _))
handle-stale s (stage_plane t) e stale =
    (stale_leader, unfold stage in rw (admit-stale s t (ground arith) _))
handle-stale s (push_health t) e stale =
    (stale_leader, unfold apply_health in rw (admit-stale s t (ground arith) _))
handle-stale s (commit_plane t evidence) e stale =
    (stale_leader, unfold commit in rw (admit-stale s t (ground arith) _))
handle-stale s (abort_plane t) e stale =
    (stale_leader, unfold abort in finalize-stale s t (ground arith) _)
handle-stale s (fail_plane t) e stale =
    (stale_leader, unfold fail in finalize-stale s t (ground arith) _)
handle-stale s (release_plane t) e stale = (stale_leader, unfold release in ground arith)
handle-stale s (fence_leader token) e stale = (stale_leader, unfold fence in ground arith)
handle-stale s (reserve_planes op opening) e stale =
    let (why, bad) = reserve_all-stale s op opening (ground arith) in (why, rw bad)
handle-stale s (journal_write entry) e stale = (stale_leader, unfold write_journal in ground arith)
handle-stale s (intent_record r) e stale =
    (stale_leader, unfold record_publish_intent in ground arith)
handle-stale s _ e stale = cc

-- After a fence by a token has succeeded in some history, whatever follows it, every request that
-- is checked by a lower token is rejected.
pub fence-rejects_older :
    (past rest : List Request) (token : ℕ) {t : AgentState} {seen : ℕ} (r : Request) {n : ℕ}
    → fence (run initial past) token ≡ ok (t, seen)
    → leader_of r ≡ some n
    → n < token
    → (e : Rejection) × (handle (run t rest) r ≡ err e)
fence-rejects_older past rest token {t} {seen} r {n} fenced by older =
    let h = reached-SlotsAreWellFormed past in
    let a =
      Ensures-result (λ q. Advances (run initial past) q.0) _ (fence-Advances _ token h) fenced in
    let b = run-Advances t rest a.slots in
    handle-stale (run t rest) r by (omega (arith, fence-token (run initial past) token h fenced))
