-- ===== src/Dp/Agent/History.antt =====
-- What holds of every history of the agent.
use barycenter.Prelude.{
  ℕ, ◌≤◌, ◌≡◌, refl, false, ltb, some, List, [], ◌∷◌, arith, inl, inr, ◌⊎◌, Assoc, Option-cases,
  lookup, nat_eq,
}
use barycenter.Dp.Operation.{Plane, http, stream}
use barycenter.Dp.Agent.State.{
  Result, ok, err, Reservation, AgentState, initial, TerminalKey, Position,
}
use barycenter.Dp.Agent.Prune.{
  prune, prune_evidence, prune_terminal, prune_terminals, prune_completed, prune_end,
}
use barycenter.Dp.Agent.Checks.{assert_invariants, epoch_falls, sequence_falls}
use barycenter.Dp.Agent.Requests.{
  Request, reserve_plane, stage_plane, abort_plane, fail_plane, release_plane, push_health,
  commit_plane, fence_leader, reserve_planes, journal_write, journal_close, idle_holder_release,
  reclaim, stale_slots_release, holder_slots_release, operation_finish, intent_record, state_of,
  handle, transact, run,
}
use barycenter.Dp.Agent.Ensures.{Ensures, Ensures-result, Result-cases}
use barycenter.Dp.Agent.Identity.{slot_at}
use barycenter.Dp.Agent.Opening.{seq_of}
use barycenter.Dp.Agent.Slots.{SlotsAreWellFormed, IsWellFormedSlot}
use barycenter.Dp.Agent.Advance.{Advances, Advances-refl, Advances-trans, Advances-frame, epoch_at}
use barycenter.Dp.Agent.VerbsAdvance.{
  reserve-Advances, stage-Advances, commit-Advances, apply_health-Advances, finalize-Advances,
  release-Advances,
}
use barycenter.Dp.Agent.FenceAdvance.{fence-Advances}
use barycenter.Dp.Agent.Verbs.{abort, fail}
use barycenter.Dp.Agent.JournalAdvance.{
  close_journal-Advances, write_journal-Advances, release_idle_holder-Advances,
  reclaim_operation-Advances, release_stale_slots-Advances, release_holder_slots-Advances,
  finish_operation-Advances, record_publish_intent-Advances,
}
use barycenter.Dp.Agent.OpeningAdvance.{reserve_all-Advances}

-- What order the moments of a history leave behind.
pub record NotEarlier (s t : AgentState) : Type 0 where
  pub token : s.max_leader_token ≤ t.max_leader_token
  pub http_epoch : epoch_at s http ≤ epoch_at t http
  pub stream_epoch : epoch_at s stream ≤ epoch_at t stream
  pub sequence : seq_of s.journal ≤ seq_of t.journal

Ensures-state_of :
    {A : Type 0} (P : AgentState → Type 0) (m : Result (AgentState × A))
    → Ensures (λ r. P r.0) m
    → Ensures P (state_of m)
Ensures-state_of P (ok r) h = h
Ensures-state_of P (err e) h = tt

handle-Advances :
    (s : AgentState) (r : Request) → SlotsAreWellFormed s → Ensures (λ t. Advances s t) (handle s r)
unfolding handle abort fail
handle-Advances s (reserve_plane t) h =
    Ensures-state_of (λ t. Advances s t) _ (reserve-Advances s t h)
handle-Advances s (stage_plane t) h = Ensures-state_of (λ t. Advances s t) _ (stage-Advances s t h)
handle-Advances s (abort_plane t) h = finalize-Advances s t h _
handle-Advances s (fail_plane t) h = finalize-Advances s t h _
handle-Advances s (release_plane t) h = release-Advances s t h
handle-Advances s (push_health t) h =
    Ensures-state_of (λ t. Advances s t) _ (apply_health-Advances s t h)
handle-Advances s (commit_plane t evidence) h =
    Ensures-state_of (λ t. Advances s t) _ (commit-Advances s t h evidence)
handle-Advances s (fence_leader token) h =
    Ensures-state_of (λ t. Advances s t) _ (fence-Advances s token h)
handle-Advances s (reserve_planes op opening) h =
    Ensures-state_of (λ t. Advances s t) _ (reserve_all-Advances s op opening h)
handle-Advances s (journal_write entry) h = write_journal-Advances s entry h
handle-Advances s (journal_close op how) h = close_journal-Advances s op how h
handle-Advances s idle_holder_release h = release_idle_holder-Advances s h
handle-Advances s (reclaim op) h =
    Ensures-state_of (λ t. Advances s t) _ (reclaim_operation-Advances s op h)
handle-Advances s (stale_slots_release op) h = release_stale_slots-Advances s op h
handle-Advances s (holder_slots_release op) h = release_holder_slots-Advances s op h
handle-Advances s (operation_finish op planes) h = finish_operation-Advances s op planes h
handle-Advances s (intent_record r) h = record_publish_intent-Advances s r h

prune_end-Advances :
    (live : List TerminalKey) (s : AgentState) (k : TerminalKey) (meta : Position)
    → SlotsAreWellFormed s
    → Advances s (prune_end live s k meta)
unfolding prune_end
prune_end-Advances live s k meta h =
    Advances-frame h (ground arith) (ground arith) (ground arith) (ground arith)

prune_terminals-Advances :
    (live : List TerminalKey) (m : Assoc TerminalKey Position) (s : AgentState)
    → SlotsAreWellFormed s
    → Advances s (prune_terminals live m s)
unfolding prune_terminals
prune_terminals-Advances live [] s h = Advances-refl s h
prune_terminals-Advances live ((k, meta) ∷ m) s h =
    let a = prune_end-Advances live s k meta h in
    Advances-trans a (prune_terminals-Advances live m (prune_end live s k meta) a.slots)

prune_evidence-Advances : (s : AgentState) → SlotsAreWellFormed s → Advances s (prune_evidence s)
unfolding prune_evidence
prune_evidence-Advances s h =
    Advances-frame h (ground arith) (ground arith) (ground arith) (ground arith)

prune_completed-Advances : (s : AgentState) → SlotsAreWellFormed s → Advances s (prune_completed s)
unfolding prune_completed
prune_completed-Advances s h = Advances-frame h refl refl refl refl

prune_terminal-Advances : (s : AgentState) → SlotsAreWellFormed s → Advances s (prune_terminal s)
unfolding prune_terminal
prune_terminal-Advances s h = prune_terminals-Advances _ s.terminal_at s h

pub prune-Advances : (s : AgentState) → SlotsAreWellFormed s → Advances s (prune s)
unfolding prune
prune-Advances s h =
    let a = prune_evidence-Advances s h in
    let b = prune_terminal-Advances _ a.slots in
    let c = prune_completed-Advances _ b.slots in Advances-trans a (Advances-trans b c)

-- What a request saves is no further back than what it read.
pub handle-prune-Advances :
    (s : AgentState) (r : Request) {t : AgentState}
    → SlotsAreWellFormed s
    → handle s r ≡ ok t
    → Advances s (prune t)
handle-prune-Advances s r h e =
    let a = Ensures-result (λ t. Advances s t) (handle s r) (handle-Advances s r h) e in
    Advances-trans a (prune-Advances _ a.slots)

pub transact_lem :
    (s : AgentState) (r : Request)
    → (transact s r ≡ s) ⊎ ((t : AgentState) × (handle s r ≡ ok t) × (transact s r ≡ prune t))
unfolding transact
transact_lem s r = elim (Result-cases (handle s r)) [
  | inl (e, bad) ↦ inl (ground arith)
  | inr (t, good) ↦ elim (Option-cases (assert_invariants (some s) (prune t))) [
    | inl fine ↦ inr (t, good, ground arith)
    | inr (v, found) ↦ inl (ground arith)
  ]
]

transact-Advances :
    (s : AgentState) (r : Request) → SlotsAreWellFormed s → Advances s (transact s r)
transact-Advances s r h = elim (transact_lem s r) [
  | inl same ↦ rw same (Advances-refl s h)
  | inr (t, good, same) ↦ rw same (handle-prune-Advances s r h good)
]

pub run-Advances :
    (s : AgentState) (rs : List Request) → SlotsAreWellFormed s → Advances s (run s rs)
unfolding run
run-Advances s [] h = Advances-refl s h
run-Advances s (r ∷ rs) h =
    let a = transact-Advances s r h in Advances-trans a (run-Advances (transact s r) rs a.slots)

pub initial-SlotsAreWellFormed : SlotsAreWellFormed initial
unfolding initial lookup
initial-SlotsAreWellFormed http e slot found = cc
initial-SlotsAreWellFormed stream e slot found = cc

pub reached-SlotsAreWellFormed : (past : List Request) → SlotsAreWellFormed (run initial past)
reached-SlotsAreWellFormed past = (run-Advances initial past initial-SlotsAreWellFormed).slots

-- Between any two moments of any history that starts from the first state, the highest token, both
-- planes' epochs and the journal's sequence number do not fall.
pub run-NotEarlier :
    (past rest : List Request) → NotEarlier (run initial past) (run (run initial past) rest)
run-NotEarlier past rest =
    let a = run-Advances (run initial past) rest (reached-SlotsAreWellFormed past) in
    record {
      token = a.token;
      http_epoch = a.http_epoch;
      stream_epoch = a.stream_epoch;
      sequence = a.sequence;
    }

-- After any history, every slot lies under its own plane and epoch, was taken for an epoch above
-- the one that its operation expects, and has no newer token than the newest.
pub run-IsWellFormedSlot :
    (past : List Request) (p : Plane) (e : ℕ) (slot : Reservation)
    → slot_at (run initial past) p e ≡ some slot
    → IsWellFormedSlot (run initial past) p e slot
run-IsWellFormedSlot past = reached-SlotsAreWellFormed past

-- The checks of the source that compare two states in order.
pub record IsMonotone (before after : AgentState) : Type 0 where
  pub token_kept : ltb after.max_leader_token before.max_leader_token ≡ false
  pub http_kept : epoch_falls before after http ≡ false
  pub stream_kept : epoch_falls before after stream ≡ false
  pub sequence_kept : sequence_falls before.journal after.journal ≡ false

-- Whatever a request makes of a state that some history has reached, the source's own checks that
-- tokens, epochs and the journal's sequence number do not fall pass on it.
pub handle-IsMonotone :
    (past : List Request) (r : Request) {t : AgentState}
    → handle (run initial past) r ≡ ok t
    → IsMonotone (run initial past) (prune t)
unfolding epoch_falls sequence_falls
handle-IsMonotone past r e =
    let a = handle-prune-Advances (run initial past) r (reached-SlotsAreWellFormed past) e in
    record {
      token_kept = ground arith;
      http_kept = ground arith;
      stream_kept = ground arith;
      sequence_kept = ground arith;
    }
