-- ===== src/Dp/Agent/Exclusive.antt =====
-- One writer of the journal, and one holder of the right to apply.
use barycenter.Prelude.{
  ◌≡◌, ◌≤◌, refl, true, false, Option, none, some, List, [], ◌∷◌, arith, inl, inr, ap, is_some, ltb,
  Bool-cases,
}
use barycenter.Dp.Operation.{ApplyOperation, planes_of}
use barycenter.Dp.Agent.State.{
  Rejection, stale_leader, operation_in_flight, not_reserved, ok, err, ◌>>=◌, PlaneAck,
  JournalEntry, AgentState, initial, OperationTuple,
}
use barycenter.Dp.Agent.Identity.{same_transition_name, op_author, tuples_for}
use barycenter.Dp.Agent.Opening.{
  Opening, seq_of, reserve_all, reserve_tuples, reserve_clean, open_journal, hold, holder_is_op,
  may_hold, clear_stale_journal, reserve_each,
}
use barycenter.Dp.Agent.Journal.{write_journal, assert_ownership}
use barycenter.Dp.Agent.Requests.{Request, run}
use barycenter.Dp.Agent.Ensures.{Ensures, Ensures-of, Ensures-step, Result-cases, Ensures-result}
use barycenter.Dp.Agent.OpeningAdvance.{reserve_tuples_lem}
use barycenter.Dp.Agent.Advance.{Advances}
use barycenter.Dp.Agent.JournalAdvance.{write_journal_lem, write_journal-Advances}
use barycenter.Dp.Agent.History.{run-Advances, reached-SlotsAreWellFormed}

write_journal-old :
    (s : AgentState) (entry : JournalEntry)
    → entry.seq ≤ seq_of s.journal
    → (e : Rejection) × (write_journal s entry ≡ err e)
write_journal-old s entry old = elim (Result-cases (write_journal s entry)) [
  | inl rejected ↦ rejected
  | inr (t, written) ↦ absurd (omega (arith, (write_journal_lem s entry written).1))
]

-- After an entry has been written to the journal in some history, whatever follows, an entry with
-- the same or a lower sequence number is rejected: of two writers that go on from the same entry,
-- one is rejected.
pub write_journal-write_journal :
    (past rest : List Request) (entry other : JournalEntry) {t : AgentState}
    → write_journal (run initial past) entry ≡ ok t
    → other.seq ≤ entry.seq
    → (e : Rejection) × (write_journal (run t rest) other ≡ err e)
write_journal-write_journal past rest entry other {t} written old =
    let s = run initial past in
    let a =
      Ensures-result (λ u. Advances s u) _
        (write_journal-Advances s entry (reached-SlotsAreWellFormed past)) written in
    let b = run-Advances t rest a.slots in
    let at_entry : seq_of t.journal ≡ entry.seq =
      ap (λ u. seq_of u.journal) (write_journal_lem s entry written).0 in
    write_journal-old (run t rest) other (omega (arith, b.sequence))

-- The operation has the right to apply, by its identifiers.
abbrev IsHeldBy : ApplyOperation → AgentState → Type 0
IsHeldBy op s = holder_is_op s.active_operation op ≡ true

open_journal-IsHeldBy :
    (s : AgentState) (op : ApplyOperation) (ts : List OperationTuple) (opening : Option Opening)
    → IsHeldBy op (open_journal (hold s op ts) op opening)
unfolding open_journal
open_journal-IsHeldBy s op ts none = ground arith
open_journal-IsHeldBy s op ts (some o) = ground arith

reserve_clean-IsHeldBy :
    (s : AgentState) (op : ApplyOperation) (ts : List OperationTuple) (opening : Option Opening)
    → Ensures (λ r. IsHeldBy op r.0) (reserve_clean s op ts opening)
unfolding reserve_clean
reserve_clean-IsHeldBy s op ts opening =
    Ensures-step (λ r. IsHeldBy op r.0) (clear_stale_journal s op ts (is_some opening))
      (λ t. reserve_each t ts >>= λ q. ok (open_journal (hold q.0 op ts) op opening, q.1))
      λ t e.
        Ensures-step (λ r. IsHeldBy op r.0) (reserve_each t ts)
          (λ q. ok (open_journal (hold q.0 op ts) op opening, q.1))
          λ q d. open_journal-IsHeldBy q.0 op ts opening

reserve_all-IsHeldBy :
    (s : AgentState) (op : ApplyOperation) (opening : Option Opening)
    → Ensures (λ r. IsHeldBy op r.0) (reserve_all s op opening)
unfolding reserve_all
reserve_all-IsHeldBy s op opening =
    Ensures-step (λ r. IsHeldBy op r.0) (tuples_for op (planes_of op))
      (λ ts. reserve_tuples s op ts opening)
      λ ts _.
        Ensures-of (λ r. IsHeldBy op r.0) (reserve_tuples s op ts opening)
          λ r e.
            Ensures-result (λ r. IsHeldBy op r.0) _ (reserve_clean-IsHeldBy s op ts opening)
              (reserve_tuples_lem s op ts opening e)

module _ (s : AgentState) (op other : ApplyOperation) (held : IsHeldBy op s)
    (differ : same_transition_name (op_author op) (op_author other) ≡ false) where
  other-holder : holder_is_op s.active_operation other ≡ false
  other-holder = ground arith

  other-may_hold : may_hold s.active_operation other ≡ false
  other-may_hold = ground arith

  reserve_tuples-other :
      (ts : List OperationTuple) (opening : Option Opening)
      → (e : Rejection) × (reserve_tuples s other ts opening ≡ err e)
  unfolding reserve_tuples
  reserve_tuples-other [] opening = (_, refl)
  reserve_tuples-other (t ∷ ts) opening =
      elim (Bool-cases (ltb t.leader_token s.max_leader_token)) [
        | inl stale ↦ (stale_leader, ground arith)
        | inr fresh ↦ (operation_in_flight, ground (arith, other-may_hold))
      ]

  reserve_all-other :
      (opening : Option Opening) → (e : Rejection) × (reserve_all s other opening ≡ err e)
  unfolding reserve_all
  reserve_all-other opening = elim (Result-cases (tuples_for other (planes_of other))) [
    | inl (e, bad) ↦ (e, rw bad)
    | inr (ts, made) ↦ rw made (reserve_tuples-other ts opening)
  ]

  write_journal-other :
      (entry : JournalEntry) → entry.op ≡ other → (e : Rejection) × (write_journal s entry ≡ err e)
  unfolding write_journal
  write_journal-other entry same =
      elim (Bool-cases (ltb entry.op.leader_token s.max_leader_token)) [
        | inl stale ↦ (stale_leader, ground arith)
        | inr fresh ↦ (not_reserved, ground (arith, other-holder))
      ]

  assert_ownership-other : (e : Rejection) × (assert_ownership s other ≡ err e)
  unfolding assert_ownership
  assert_ownership-other = elim (Bool-cases (ltb other.leader_token s.max_leader_token)) [
    | inl stale ↦ (stale_leader, ground arith)
    | inr fresh ↦ elim (Bool-cases (is_some s.active_operation)) [
      | inl held ↦ (operation_in_flight, ground (arith, other-holder))
      | inr free ↦ (not_reserved, ground arith)
    ]
  ]

-- An operation that has reserved all its planes excludes every other one, by the identifiers of
-- operation and transition: the other may not reserve its planes, write the journal, or go on as
-- the owner of the right to apply.
pub reserve_all-excludes :
    (s : AgentState) (op other : ApplyOperation) (opening next : Option Opening)
    (entry : JournalEntry) {t : AgentState} {acks : List PlaneAck}
    → reserve_all s op opening ≡ ok (t, acks)
    → same_transition_name (op_author op) (op_author other) ≡ false
    → entry.op ≡ other
    → ((e : Rejection) × (reserve_all t other next ≡ err e))
      × ((e : Rejection) × (write_journal t entry ≡ err e))
      × ((e : Rejection) × (assert_ownership t other ≡ err e))
reserve_all-excludes s op other opening next entry {t} {acks} e differ same =
    let held = Ensures-result (λ r. IsHeldBy op r.0) _ (reserve_all-IsHeldBy s op opening) e in
    (
      reserve_all-other t op other held differ next,
      write_journal-other t op other held differ entry same,
      assert_ownership-other t op other held differ,
    )
