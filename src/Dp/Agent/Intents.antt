-- ===== src/Dp/Agent/Intents.antt =====
-- src/dp/agent.ts, `prune`: it leaves the journal and the publish intent as they are.
use barycenter.Prelude.{◌≡◌, refl, ◌∙◌, List, [], ◌∷◌, arith, Assoc}
use barycenter.Dp.Agent.State.{AgentState, TerminalKey, Position}
use barycenter.Dp.Agent.Prune.{
  prune, prune_evidence, prune_terminal, prune_terminals, prune_end, prune_completed,
  live_transition_keys,
}

-- What pruning does not touch.
pub record SameIntents (s t : AgentState) : Type 0 where
  pub journal : t.journal ≡ s.journal
  pub intent : t.last_publish_intent ≡ s.last_publish_intent

SameIntents-trans : (s t u : AgentState) → SameIntents s t → SameIntents t u → SameIntents s u
SameIntents-trans s t u h i = record {
  journal = i.journal ∙ h.journal;
  intent = i.intent ∙ h.intent;
}

prune_evidence-SameIntents : (s : AgentState) → SameIntents s (prune_evidence s)
unfolding prune_evidence
prune_evidence-SameIntents s = record { journal = ground arith; intent = ground arith }

prune_end-SameIntents :
    (live : List TerminalKey) (s : AgentState) (k : TerminalKey) (at : Position)
    → SameIntents s (prune_end live s k at)
unfolding prune_end
prune_end-SameIntents live s k at = record { journal = ground arith; intent = ground arith }

prune_terminals-SameIntents :
    (live : List TerminalKey) (m : Assoc TerminalKey Position) (s : AgentState)
    → SameIntents s (prune_terminals live m s)
unfolding prune_terminals
prune_terminals-SameIntents live [] s = record { journal = refl; intent = refl }
prune_terminals-SameIntents live ((k, p) ∷ m) s =
    SameIntents-trans s (prune_end live s k p) _ (prune_end-SameIntents live s k p)
      (prune_terminals-SameIntents live m (prune_end live s k p))

pub prune-SameIntents : (s : AgentState) → SameIntents s (prune s)
unfolding prune prune_terminal prune_completed
prune-SameIntents s = SameIntents-trans s (prune_evidence s) _ (prune_evidence-SameIntents s) (
    let h =
      prune_terminals-SameIntents (live_transition_keys (prune_evidence s))
        (prune_evidence s).terminal_at (prune_evidence s) in
    record { journal = h.journal; intent = h.intent })
