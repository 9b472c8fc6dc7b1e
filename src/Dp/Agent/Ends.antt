-- ===== src/Dp/Agent/Ends.antt =====
-- What a transition that has failed or was given up can do no more.
use barycenter.Prelude.{ℕ, ◌≤◌, ◌≡◌, ◌≢◌, refl, sym, ◌∙◌, true, none, some, arith, ◌⊎◌, inl, inr}
use barycenter.Dp.Operation.{at, ActivationEvidence}
use barycenter.Dp.Agent.State.{
  OperationTuple, TerminalKind, terminal, ok, err, StepName, AgentState, completed_keys,
  terminal_keys,
}
use barycenter.Dp.Agent.Identity.{tuple_author, terminal_of}
use barycenter.Dp.Agent.Rules.{admit, judge, raise_token, finish, finalize, same_kind}
use barycenter.Dp.Agent.Verbs.{reserve, stage, commit, apply_health}
use barycenter.Dp.Agent.Answers.{raise_token-same, terminal_of-raise_token}
use barycenter.Dp.Agent.Replay.{perform}
use barycenter.Dp.Agent.Prune.{prune}
use barycenter.Dp.Agent.Standing.{IsDistinct, finish-Stands}

-- The end of a transition on a plane, as its newest leader sees it.
record HasEnded (s : AgentState) (op : OperationTuple) (how : TerminalKind) : Type 0 where
  newest : s.max_leader_token ≡ op.leader_token
  ended : terminal_of s (tuple_author op) op.plane ≡ some how

same_kind_iff : (a b : TerminalKind) → same_kind a b ≡ true → a ≡ b
same_kind_iff a b e = ground arith

finalize_lem :
    (s : AgentState) (op : OperationTuple) (how : TerminalKind) {t : AgentState}
    → finalize s op how ≡ ok t
    → ((t ≡ raise_token s op.leader_token)
        × (terminal_of (raise_token s op.leader_token) (tuple_author op) op.plane ≡ some how)
        × (s.max_leader_token ≤ op.leader_token))
      ⊎ ((t ≡ finish (raise_token s op.leader_token) op how)
          × (s.max_leader_token ≤ op.leader_token))
unfolding finalize
finalize_lem s op how e = ground arith

raise_token-token :
    (s : AgentState) (token : ℕ)
    → s.max_leader_token ≤ token
    → (raise_token s token).max_leader_token ≡ token
unfolding raise_token
raise_token-token s token le = ground arith

-- The end of a transition that had none stands in what is saved, if the plane has not gone beyond
-- the operation's target.
finalize-HasEnded :
    (s : AgentState) (op : OperationTuple) (how : TerminalKind) {t : AgentState}
    → terminal_of s (tuple_author op) op.plane ≡ none
    → IsDistinct s.terminal_at
    → (at s.planes op.plane).coordinate.activation_epoch ≤ op.target.activation_epoch
    → finalize s op how ≡ ok t
    → HasEnded (prune t) op how
unfolding raise_token terminal_of
finalize-HasEnded s op how unended distinct ahead e = elim (finalize_lem s op how e) [
  | inl (same, ended, le) ↦ absurd (none-some (sym unended ∙ ended))
  | inr (same, le) ↦
      let h = finish-Stands (raise_token s op.leader_token) op how distinct ahead in
      rw same (record {
        newest = h.newest ∙ raise_token-token s op.leader_token le;
        ended = rw (terminal_of, h.ended) refl;
      })
]
  where
    none-some : {how : TerminalKind} → none ≡ some how → ⊥
    none-some e = cc

abbrev IsBad : TerminalKind → Type 0
IsBad how = (how ≡ TerminalKind.failed) ⊎ (how ≡ TerminalKind.aborted)

admit-HasEnded :
    (s : AgentState) (op : OperationTuple) (how : TerminalKind) (step : StepName)
    → HasEnded s op how
    → IsBad how
    → admit s op step ≡ err (terminal how)
unfolding admit judge
admit-HasEnded s op how step h bad = ground (arith, terminal_of-raise_token s op, h.newest, h.ended)

perform-HasEnded :
    (s : AgentState) (op : OperationTuple) (how : TerminalKind) (step : StepName)
    (evidence : ActivationEvidence)
    → HasEnded s op how
    → IsBad how
    → perform step s op evidence ≡ err (terminal how)
unfolding reserve stage commit apply_health
perform-HasEnded s op how StepName.reserve evidence h bad = rw (admit-HasEnded s op how _ h bad)
perform-HasEnded s op how StepName.stage evidence h bad = rw (admit-HasEnded s op how _ h bad)
perform-HasEnded s op how StepName.commit evidence h bad = rw (admit-HasEnded s op how _ h bad)
perform-HasEnded s op how StepName.health evidence h bad = rw (admit-HasEnded s op how _ h bad)

finalize_again :
    (s : AgentState) (op : OperationTuple) (how : TerminalKind)
    → HasEnded s op how
    → finalize s op how ≡ ok s
unfolding finalize
finalize_again s op how h =
    ground
      (arith, terminal_of-raise_token s op, raise_token-same s op.leader_token h.newest, h.ended)

finalize_other :
    (s : AgentState) (op : OperationTuple) (how other : TerminalKind)
    → HasEnded s op how
    → other ≢ how
    → finalize s op other ≡ err (terminal how)
unfolding finalize
finalize_other s op how other h differ =
    ground (arith, terminal_of-raise_token s op, h.newest, h.ended, same_kind_iff how other)

-- When an open transition is failed or given up on a plane that has not gone beyond the operation's
-- target, then in the state that is saved after pruning each of its steps there is rejected with
-- that end, the same end again is accepted and changes nothing, and any other end is rejected.
pub finalize-prune-perform :
    (s : AgentState) (op : OperationTuple) (how other : TerminalKind) {t : AgentState}
    → (how ≡ TerminalKind.failed) ⊎ (how ≡ TerminalKind.aborted)
    → other ≢ how
    → terminal_of s (tuple_author op) op.plane ≡ none
    → IsDistinct s.terminal_at
    → (at s.planes op.plane).coordinate.activation_epoch ≤ op.target.activation_epoch
    → finalize s op how ≡ ok t
    → ((step : StepName) (evidence : ActivationEvidence)
        → perform step (prune t) op evidence ≡ err (terminal how))
      × (finalize (prune t) op how ≡ ok (prune t))
      × (finalize (prune t) op other ≡ err (terminal how))
finalize-prune-perform s op how other {t} bad differ unended distinct ahead e =
    let h = finalize-HasEnded s op how unended distinct ahead e in
    (
      λ step evidence. perform-HasEnded (prune t) op how step evidence h bad,
      finalize_again (prune t) op how h,
      finalize_other (prune t) op how other h differ,
    )
