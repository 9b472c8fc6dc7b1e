-- ===== src/Dp/Agent/OpeningAdvance.antt =====
-- `reserveAll` lowers no token, no epoch and not the journal's sequence number, and keeps the slots
-- well formed.
use barycenter.Prelude.{
  ◌≡◌, refl, Bool, not, ◌&&◌, Option, some, List, [], ◌∷◌, arith, Bool-cases, Option-cases, ◌⊎◌,
  inl, inr, is_some,
}
use barycenter.Dp.Operation.{ApplyOperation, planes_of, is_terminal_phase}
use barycenter.Dp.Agent.State.{
  OperationTuple, ok, ◌>>=◌, JournalEntry, AgentState, PlaneAck, terminal_keys,
}
use barycenter.Dp.Agent.Identity.{tuples_for, owns_journal}
use barycenter.Dp.Agent.Settle.{supersede}
use barycenter.Dp.Agent.Verbs.{reserve}
use barycenter.Dp.Agent.Opening.{
  Opening, abort_orphan, abort_orphans, hold, reserve_clean, clear_orphan, clear_stale_journal,
  reserve_each, reserve_tuples, reserve_all, open_journal, holder_of, epochs_among,
}
use barycenter.Dp.Agent.Ensures.{Ensures, Ensures-of, Ensures-step, Ensures-result}
use barycenter.Dp.Agent.Slots.{SlotsAreWellFormed}
use barycenter.Dp.Agent.Advance.{
  Advances, Advances-refl, Advances-trans, Advances-frame, SlotsAreWellFormed-frame,
  supersede-Advances,
}
use barycenter.Dp.Agent.VerbsAdvance.{reserve-Advances}

abort_orphan-Advances :
    (s : AgentState) (mine : List OperationTuple) (t : OperationTuple)
    → SlotsAreWellFormed s
    → Advances s (abort_orphan s mine t)
unfolding abort_orphan
abort_orphan-Advances s mine t h =
    Advances-frame h (ground arith) (ground arith) (ground arith) (ground arith)

abort_orphans-Advances :
    (s : AgentState) (mine theirs : List OperationTuple)
    → SlotsAreWellFormed s
    → Advances s (abort_orphans s mine theirs)
unfolding abort_orphans
abort_orphans-Advances s mine [] h = Advances-refl s h
abort_orphans-Advances s mine (t ∷ ts) h =
    let a = abort_orphan-Advances s mine t h in
    Advances-trans a (abort_orphans-Advances (abort_orphan s mine t) mine ts a.slots)

clear_orphan-Advances :
    (s : AgentState) (mine : List OperationTuple) (stale : JournalEntry)
    → SlotsAreWellFormed s
    → Ensures (λ t. Advances s t) (clear_orphan s mine stale)
unfolding clear_orphan
clear_orphan-Advances s mine stale h =
    Ensures-step (λ t. Advances s t) (tuples_for stale.op (planes_of stale.op))
      (λ theirs. ok (
        supersede (abort_orphans s mine theirs)
          (holder_of stale.op (planes_of stale.op) (epochs_among theirs))))
      λ theirs _.
        let a = abort_orphans-Advances s mine theirs h in
        Advances-trans a (
          supersede-Advances _ (holder_of stale.op (planes_of stale.op) (epochs_among theirs))
            a.slots)

clear_stale_journal_lem :
    (s : AgentState) (op : ApplyOperation) (mine : List OperationTuple) (opening : Bool)
    {t : AgentState}
    → clear_stale_journal s op mine opening ≡ ok t
    → (t ≡ s) ⊎ ((stale : JournalEntry) × (clear_orphan s mine stale ≡ ok t))
unfolding clear_stale_journal
clear_stale_journal_lem s op mine opening e = elim (Option-cases s.journal) [
  | inl empty ↦ inl (ground arith)
  | inr (stale, found) ↦
      elim (Bool-cases
        (opening && not (owns_journal (some stale) op) && not (is_terminal_phase stale.phase))) [
          | inl orphan ↦ inr (stale, ground arith)
          | inr kept ↦ inl (ground arith)
        ]
]

clear_stale_journal-Advances :
    (s : AgentState) (op : ApplyOperation) (mine : List OperationTuple) (opening : Bool)
    → SlotsAreWellFormed s
    → Ensures (λ t. Advances s t) (clear_stale_journal s op mine opening)
clear_stale_journal-Advances s op mine opening h =
    Ensures-of (λ t. Advances s t) (clear_stale_journal s op mine opening)
      λ t e. elim (clear_stale_journal_lem s op mine opening e) [
        | inl same ↦ rw same (Advances-refl s h)
        | inr (stale, cleared) ↦
            Ensures-result (λ t. Advances s t) (clear_orphan s mine stale)
              (clear_orphan-Advances s mine stale h) cleared
      ]

reserve_each-Advances :
    (s : AgentState) (ts : List OperationTuple)
    → SlotsAreWellFormed s
    → Ensures (λ r. Advances s r.0) (reserve_each s ts)
unfolding reserve_each
reserve_each-Advances s [] h = Advances-refl s h
reserve_each-Advances s (t ∷ ts) h =
    Ensures-step (λ r. Advances s r.0) (reserve s t)
      (λ r. reserve_each r.0 ts >>= λ q. ok (q.0, r.1 ∷ q.1))
      λ r e.
        let a = Ensures-result (λ r. Advances s r.0) (reserve s t) (reserve-Advances s t h) e in
        Ensures-step (λ r. Advances s r.0) (reserve_each r.0 ts) (λ q. ok (q.0, r.1 ∷ q.1))
          λ q d. Advances-trans a (
            Ensures-result (λ q. Advances r.0 q.0) (reserve_each r.0 ts)
              (reserve_each-Advances r.0 ts a.slots) d)

open_journal-Advances :
    (s : AgentState) (op : ApplyOperation) (opening : Option Opening)
    → SlotsAreWellFormed s
    → Advances s (open_journal s op opening)
unfolding open_journal
open_journal-Advances s op opening h = record {
  token = ground arith;
  http_epoch = ground arith;
  stream_epoch = ground arith;
  sequence = ground arith;
  slots = SlotsAreWellFormed-frame (ground arith) (ground arith) h;
}

reserve_clean-Advances :
    (s : AgentState) (op : ApplyOperation) (ts : List OperationTuple) (opening : Option Opening)
    → SlotsAreWellFormed s
    → Ensures (λ r. Advances s r.0) (reserve_clean s op ts opening)
unfolding reserve_clean
reserve_clean-Advances s op ts opening h =
    Ensures-step (λ r. Advances s r.0) (clear_stale_journal s op ts (is_some opening))
      (λ t. reserve_each t ts >>= λ q. ok (open_journal (hold q.0 op ts) op opening, q.1))
      λ t e.
        let a =
          Ensures-result (λ t. Advances s t) _
            (clear_stale_journal-Advances s op ts (is_some opening) h) e in
        Ensures-step (λ r. Advances s r.0) (reserve_each t ts)
          (λ q. ok (open_journal (hold q.0 op ts) op opening, q.1))
          λ q d.
            let b = Ensures-result (λ q. Advances t q.0) _ (reserve_each-Advances t ts a.slots) d in
            let c : Advances q.0 (hold q.0 op ts) = Advances-frame b.slots refl refl refl refl in
            Advances-trans a (
              Advances-trans b
                (Advances-trans c (open_journal-Advances (hold q.0 op ts) op opening c.slots)))

pub reserve_tuples_lem :
    (s : AgentState) (op : ApplyOperation) (ts : List OperationTuple) (opening : Option Opening)
    {r : AgentState × List PlaneAck}
    → reserve_tuples s op ts opening ≡ ok r
    → reserve_clean s op ts opening ≡ ok r
unfolding reserve_tuples
reserve_tuples_lem s op [] opening e = cc
reserve_tuples_lem s op (t ∷ ts) opening e = ground arith

pub reserve_all-Advances :
    (s : AgentState) (op : ApplyOperation) (opening : Option Opening)
    → SlotsAreWellFormed s
    → Ensures (λ r. Advances s r.0) (reserve_all s op opening)
unfolding reserve_all
reserve_all-Advances s op opening h =
    Ensures-step (λ r. Advances s r.0) (tuples_for op (planes_of op))
      (λ ts. reserve_tuples s op ts opening)
      λ ts _.
        Ensures-of (λ r. Advances s r.0) (reserve_tuples s op ts opening)
          λ r e.
            Ensures-result (λ r. Advances s r.0) _ (reserve_clean-Advances s op ts opening h)
              (reserve_tuples_lem s op ts opening e)
