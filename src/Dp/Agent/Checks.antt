-- ===== src/Dp/Agent/Checks.antt =====
-- src/dp/agent.ts, `assertInvariants`: the checks that every save must pass, in the source's
-- order. Each test answers whether the state that was read and the one to be saved break it.
use barycenter.Prelude.{
  ℕ, Bool, true, false, not, ◌&&◌, ◌||◌, Option, none, some, List, [], ◌∷◌, ltb, ◌==◌,
  if◌then◌else◌, Assoc, is_some, lookup,
}
use barycenter.Dp.Operation.{Plane, http, stream, at, PublishRecord, ApplyPhase, ActivationEvidence}
use barycenter.Dp.Agent.State.{
  TerminalKind, TerminalKey, terminal_keys, Position, position_keys, Reservation, JournalEntry,
  AgentState,
}
use barycenter.Dp.Agent.Identity.{
  op_author, record_author, same_transition_name, same_record_identity,
}
use barycenter.Dp.Agent.Rules.{same_kind}
use barycenter.Dp.Agent.Settle.{candidate_arrived, epochs_from_journal}
use barycenter.Dp.Agent.Prune.{live_transition_keys, terminal_prunable, is_standing}

pub data Violation : Type 0 where
  holder_is_not_newest slot_above_newest record_above_newest intent_is_not_fenced : Violation
  token_fell epoch_fell sequence_fell : Violation
  baseline_without_candidate activation_without_baseline : Violation
  end_forgotten end_changed standing_evidence_forgotten : Violation

-- I1: the holder has the newest token, and no slot a newer one.
unfoldable pub holder_is_old : AgentState → Bool
holder_is_old s = elim s.active_operation [
  | none ↦ false
  | some holder ↦ not (holder.leader_token == s.max_leader_token)
]

unfoldable pub some_slot_above : ℕ → Assoc ℕ Reservation → Bool
some_slot_above bound [] = false
some_slot_above bound ((e, slot) ∷ m) = ltb bound slot.op.leader_token || some_slot_above bound m

-- I5: no record has a newer token than the newest, and a new intent has the newest.
unfoldable pub record_above : ℕ → Option PublishRecord → Bool
record_above bound none = false
record_above bound (some r) = ltb bound r.leader_token

abbrev is_new_intent : Option PublishRecord → PublishRecord → Bool
is_new_intent none r = true
is_new_intent (some old) r =
    not
      (same_transition_name (record_author old) (record_author r) && old.generation == r.generation)

unfoldable pub intent_is_unfenced : AgentState → AgentState → Bool
intent_is_unfenced before after = elim after.last_publish_intent [
  | none ↦ false
  | some r ↦
      is_new_intent before.last_publish_intent r && not (r.leader_token == after.max_leader_token)
]

-- I3: tokens, epochs and the journal's sequence do not fall.
unfoldable pub epoch_falls : AgentState → AgentState → Plane → Bool
epoch_falls before after p =
    ltb (at after.planes p).coordinate.activation_epoch
      (at before.planes p).coordinate.activation_epoch

unfoldable pub sequence_falls : Option JournalEntry → Option JournalEntry → Bool
sequence_falls (some was) (some now) = ltb now.seq was.seq
sequence_falls _ _ = false

abbrev is_record : Option PublishRecord → PublishRecord → Bool
is_record none r = false
is_record (some q) r = same_record_identity r q

-- I6: the last activation comes from the candidate that was there.
unfoldable pub baseline_is_unproposed : AgentState → AgentState → Bool
baseline_is_unproposed before after = elim after.last_activated [
  | none ↦ false
  | some r ↦ not (is_record before.last_activated r) && not (is_record before.pending_activation r)
]

abbrev is_activated : ApplyPhase → Bool
is_activated ApplyPhase.activated = true
is_activated _ = false

abbrev journal_closes : Option JournalEntry → PublishRecord → Bool
journal_closes none c = false
journal_closes (some j) c =
    is_activated j.phase && same_transition_name (op_author j.op) (record_author c)

-- I6: an activated candidate that is taken away has become the last activation.
unfoldable pub candidate_is_lost : AgentState → AgentState → PublishRecord → Bool
candidate_is_lost before after c =
    candidate_arrived after c (elim before.pending_epochs [
      | some epochs ↦ some epochs
      | none ↦ epochs_from_journal before (record_author c)
    ])
    && journal_closes after.journal c
    && not (is_some after.pending_activation)
    && not (lost_to after.last_activated)
  where
    lost_to : Option PublishRecord → Bool
    lost_to none = false
    lost_to (some r) = same_record_identity r c

unfoldable pub candidate_lost : AgentState → AgentState → Bool
unfolding candidate_is_lost
candidate_lost before after = elim before.pending_activation [
  | none ↦ false
  | some c ↦ candidate_is_lost before after c
]

-- I7: how a transition ended does not change, and is forgotten only out of reach.
unfoldable pub end_of :
    AgentState → AgentState → List TerminalKey → TerminalKey → TerminalKind → Option Violation
end_of before after live k was = elim (lookup k after.terminal) [
  | some now ↦ if same_kind now was then none else some end_changed
  | none ↦
      if terminal_prunable (lookup k before.terminal_at) after k live
      then none
      else some end_forgotten
]

unfoldable pub ends_of :
    AgentState → AgentState → List TerminalKey → Assoc TerminalKey TerminalKind → Option Violation
unfolding end_of
ends_of before after live [] = none
ends_of before after live ((k, was) ∷ m) = elim (end_of before after live k was) [
  | some v ↦ some v
  | none ↦ ends_of before after live m
]

unfoldable pub evidence_forgotten : AgentState → Assoc Position ActivationEvidence → Bool
evidence_forgotten after [] = false
evidence_forgotten after ((k, e) ∷ m) =
    (not (is_some (lookup k after.activation_evidence)) && is_standing after k)
    || evidence_forgotten after m

-- The checks on the new state alone, then those against the old one.
unfoldable pub check_state : AgentState → Option Violation
unfolding holder_is_old some_slot_above record_above
check_state s =
    if holder_is_old s
    then some holder_is_not_newest
    else if some_slot_above s.max_leader_token s.reservations.at_http
        || some_slot_above s.max_leader_token s.reservations.at_stream
    then some slot_above_newest
    else if record_above s.max_leader_token s.last_publish_intent
        || record_above s.max_leader_token s.last_activated
        || record_above s.max_leader_token s.pending_activation
    then some record_above_newest
    else none

unfoldable pub check_change : AgentState → AgentState → Option Violation
unfolding intent_is_unfenced epoch_falls baseline_is_unproposed candidate_lost ends_of
    evidence_forgotten sequence_falls live_transition_keys
check_change before after =
    if intent_is_unfenced before after
    then some intent_is_not_fenced
    else if ltb after.max_leader_token before.max_leader_token
    then some token_fell
    else if epoch_falls before after http || epoch_falls before after stream
    then some epoch_fell
    else if baseline_is_unproposed before after
    then some baseline_without_candidate
    else if candidate_lost before after
    then some activation_without_baseline
    else elim (ends_of before after (live_transition_keys after) before.terminal) [
      | some v ↦ some v
      | none ↦
          if evidence_forgotten after before.activation_evidence
          then some standing_evidence_forgotten
          else if sequence_falls before.journal after.journal
          then some sequence_fell
          else none
    ]

unfoldable pub assert_invariants : Option AgentState → AgentState → Option Violation
unfolding check_state check_change
assert_invariants before after = elim (check_state after) [
  | some v ↦ some v
  | none ↦ elim before [ none ↦ none | some s ↦ check_change s after ]
]
