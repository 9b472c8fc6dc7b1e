-- ===== src/Dp/Agent/Commits.antt =====
-- What a commit has done when it succeeds.
use barycenter.Prelude.{◌≡◌, refl, sym, true, false, Option, none, some, arith, ◌⊎◌, inl, inr}
use barycenter.Dp.Operation.{
  Plane, PerPlane, http, stream, at, put, ActivationEvidence, proves_activation,
}
use barycenter.Dp.Agent.State.{OperationTuple, PlaneAck, ok, Reservation, StepName, AgentState}
use barycenter.Dp.Agent.Identity.{tuple_author, slot_at}
use barycenter.Dp.Agent.Rules.{
  admit, raise_token, record_step, target_state, finish, release_own_slot, delete_slot,
}
use barycenter.Dp.Agent.Verbs.{
  commit, commit_admitted, commit_new, move_plane, propose, already_there, unless_replayed,
}
use barycenter.Dp.Agent.Ensures.{bind-ok}
use barycenter.Dp.Agent.Admission.{admit_lem}
use barycenter.Dp.Agent.VerbsAdvance.{check_slot_lem}
use barycenter.Dp.Agent.Answers.{admit_replay_cached}
use barycenter.Dp.Agent.Replay.{commit_new_lem, commit_admitted_lem, committed_state}

-- What allows a commit to move its plane: the plane stands where the operation expects it, the
-- epoch is reserved by this very operation, its payload has been staged, and the evidence proves
-- the target generation.
pub record IsJustified (s : AgentState) (op : OperationTuple) (evidence : ActivationEvidence)
    : Type 0 where
  pub expected : (at s.planes op.plane).coordinate ≡ op.expected_current
  pub slot : Reservation
  pub reserved : slot_at s op.plane op.target.activation_epoch ≡ some slot
  pub own : slot.op ≡ op
  pub staged : slot.staged_digest ≡ some op.payload_digest
  pub proved : proves_activation (some evidence) op.target_generation ≡ true

-- The planes after a commit: the operation's own plane is at its target, the other as it was.
abbrev pub IsCommitted : AgentState → AgentState → OperationTuple → Type 0
IsCommitted s t op = t.planes ≡ put s.planes op.plane (target_state op (some (tuple_author op)))

commit_new-IsJustified :
    (s : AgentState) (op : OperationTuple) (evidence : ActivationEvidence)
    {r : AgentState × PlaneAck}
    → commit_new s op evidence ≡ ok r
    → IsJustified s op evidence
commit_new-IsJustified s op evidence e =
    let (checked, _) = commit_new_lem s op evidence e in
    let (slot, reserved, own, expected, staged, proved) = check_slot_lem _ _ op evidence checked in
    record {
      expected = expected;
      slot = slot;
      reserved = reserved;
      own = own;
      staged = staged;
      proved = proved;
    }

put-at : {A : Type 0} (r : PerPlane A) (p : Plane) → put r p (at r p) ≡ r
put-at r http = refl
put-at r stream = refl

committed_state-planes :
    (s : AgentState) (op : OperationTuple) (evidence : ActivationEvidence)
    → (committed_state s op evidence).planes
      ≡ put s.planes op.plane (target_state op (some (tuple_author op)))
unfolding finish release_own_slot delete_slot propose move_plane
committed_state-planes s op evidence = ground arith

already_there_lem :
    (s : AgentState) (op : OperationTuple)
    → already_there s op ≡ true
    → at s.planes op.plane ≡ target_state op (some (tuple_author op))
unfolding already_there
already_there_lem s op e = ground arith

commit_admitted-IsCommitted :
    (s : AgentState) (op : OperationTuple) (evidence : ActivationEvidence)
    {r : AgentState × PlaneAck}
    → commit_admitted s op evidence ≡ ok r
    → IsCommitted s r.0 op × ((already_there s op ≡ true) ⊎ IsJustified s op evidence)
unfolding record_step
commit_admitted-IsCommitted s op evidence e = elim (commit_admitted_lem s op evidence e) [
  | inl (here, same) ↦
      rw same (rw (← already_there_lem s op here) (sym (put-at s.planes op.plane)), inl here)
  | inr new ↦
      let planes = committed_state-planes s op evidence in
      rw ((commit_new_lem s op evidence new).1)
        (planes, inr (commit_new-IsJustified s op evidence new))
]

IsJustified-before :
    (s : AgentState) (op : OperationTuple) (evidence : ActivationEvidence)
    → (already_there (raise_token s op.leader_token) op ≡ true)
      ⊎ IsJustified (raise_token s op.leader_token) op evidence
    → (already_there s op ≡ true) ⊎ IsJustified s op evidence
unfolding already_there
IsJustified-before s op evidence (inl here) = inl here
IsJustified-before s op evidence (inr j) = inr (record {
  expected = j.expected;
  slot = j.slot;
  reserved = j.reserved;
  own = j.own;
  staged = j.staged;
  proved = j.proved;
})

-- A commit that is answered for the first time has moved its plane to the target, with the
-- operation for its author, and left the other plane; and either the plane stood there already, by
-- the same transition of the same leader, or it stood where the operation expects it, the epoch
-- was reserved by the very operation, the payload staged, and the evidence proves the generation.
pub commit-IsCommitted :
    (s : AgentState) (op : OperationTuple) (evidence : ActivationEvidence) {t : AgentState}
    {ack : PlaneAck}
    → commit s op evidence ≡ ok (t, ack)
    → ack.cached ≡ false
    → IsCommitted s t op × ((already_there s op ≡ true) ⊎ IsJustified s op evidence)
unfolding commit
commit-IsCommitted s op evidence {t} {ack} e first =
    let (r, admitted, rested) =
      bind-ok (admit s op StepName.commit)
        (λ r. unless_replayed r.1 r.0 (commit_admitted r.0 op evidence)) e in
    by_replay r.0 r.1 admitted rested
  where
    before_raise :
        IsCommitted (raise_token s op.leader_token) t op
          × ((already_there (raise_token s op.leader_token) op ≡ true)
              ⊎ IsJustified (raise_token s op.leader_token) op evidence)
        → IsCommitted s t op × ((already_there s op ≡ true) ⊎ IsJustified s op evidence)
    before_raise (moved, why) = (moved, IsJustified-before s op evidence why)

    by_replay :
        (u : AgentState) (replay : Option PlaneAck)
        → admit s op StepName.commit ≡ ok (u, replay)
        → unless_replayed replay u (commit_admitted u op evidence) ≡ ok (t, ack)
        → IsCommitted s t op × ((already_there s op ≡ true) ⊎ IsJustified s op evidence)
    by_replay u (some seen) admitted rested =
        let cached = admit_replay_cached s op StepName.commit admitted in
        let same : seen ≡ ack = cc in absurd (ground arith)
    by_replay u none admitted rested =
        let (_, raised) = admit_lem s op StepName.commit admitted in
        before_raise (commit_admitted-IsCommitted _ op evidence (rw raised at rested))
