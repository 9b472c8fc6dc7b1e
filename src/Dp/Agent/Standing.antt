-- ===== src/Dp/Agent/Standing.antt =====
-- src/dp/agent.ts, `pruneTerminal`: the end of a transition that aims at a place its plane has not
-- yet gone beyond is not forgotten.
use mathlib.Core.Path.{subst}
use barycenter.Prelude.{
  IsAll, Assoc, Eq, lookup, insert, lookup-erase, lookup-insert_self, ℕ, ◌≡◌, ◌≤◌, refl, sym, false,
  some, List, [], ◌∷◌, arith, Bool-cases, inl, inr, ◌⊎◌,
}
use barycenter.Dp.Operation.{at}
use barycenter.Dp.Agent.State.{
  OperationTuple, TerminalKey, TerminalKind, terminal_keys, terminal_key_eq, Position, AgentState,
}
use barycenter.Dp.Agent.Identity.{transition_key}
use barycenter.Dp.Agent.Rules.{finish, release_own_slot}
use barycenter.Dp.Agent.Prune.{
  prune, prune_evidence, prune_terminal, prune_terminals, prune_end, prune_completed,
  terminal_prunable, live_transition_keys,
}

-- No two entries have the same key, as no object of the source has.
abbrev pub IsDistinct : {K V : Type 0} ⦃e : Eq K⦄ → Assoc K V → Type 0
IsDistinct [] = Unit {0}
IsDistinct ⦃e⦄ ((k, v) ∷ m) = IsAll (λ kv. e.beq kv.0 k ≡ false) m × IsDistinct m

module _ (key : TerminalKey) (place : Position) where
  -- An entry that is another key's, or is filed at the place.
  abbrev IsFiled : TerminalKey × Position → Type 0
  IsFiled (k, p) = (terminal_key_eq k key ≡ false) ⊎ (p ≡ place)

  others-IsFiled :
      (m : Assoc TerminalKey Position)
      → IsAll (λ kp. terminal_key_eq kp.0 key ≡ false) m
      → IsAll IsFiled m
  others-IsFiled [] h = tt
  others-IsFiled ((k, p) ∷ m) (other, h) = (inl other, others-IsFiled m h)

  insert-IsFiled :
      (m : Assoc TerminalKey Position) → IsDistinct m → IsAll IsFiled (insert key place m)
  unfolding insert
  insert-IsFiled [] h = (inr refl, tt)
  insert-IsFiled ((k, p) ∷ m) (alone, h) = elim (Bool-cases (terminal_key_eq k key)) [
    | inl same ↦
        let is_key : k ≡ key = (terminal_keys.beq_iff k key).0 same in
        rw same (
          inr refl,
          others-IsFiled m
              (subst (λ x. IsAll (λ kp. terminal_key_eq kp.0 x ≡ false) m) is_key alone),
        )
    | inr other ↦ rw other (inl other, insert-IsFiled m h)
  ]

  -- The end is there, at a place that its plane has not gone beyond.
  pub record Stands (how : TerminalKind) (token : ℕ) (s : AgentState) : Type 0 where
    pub ended : lookup key s.terminal ≡ some how
    pub ahead : (at s.planes place.plane).coordinate.activation_epoch ≤ place.epoch
    pub newest : s.max_leader_token ≡ token

  module _ (how : TerminalKind) (token : ℕ) where
    prune_end-Stands :
        (live : List TerminalKey) (s : AgentState) (k : TerminalKey) (p : Position)
        → IsFiled (k, p)
        → Stands how token s
        → Stands how token (prune_end live s k p)
    unfolding prune_end terminal_prunable
    prune_end-Stands live s k p (inl other) h = record {
      ended = ground (arith, h.ended, lookup-erase k key s.terminal);
      ahead = ground (arith, h.ahead);
      newest = ground (arith, h.newest);
    }
    prune_end-Stands live s k p (inr same) h =
        subst (λ q. Stands how token (prune_end live s k q)) (sym same)
          (record {
            ended = ground (arith, h.ended, h.ahead);
            ahead = ground (arith, h.ahead);
            newest = ground (arith, h.newest);
          })

    prune_terminals-Stands :
        (live : List TerminalKey) (m : Assoc TerminalKey Position) (s : AgentState)
        → IsAll IsFiled m
        → Stands how token s
        → Stands how token (prune_terminals live m s)
    unfolding prune_terminals
    prune_terminals-Stands live [] s filed h = h
    prune_terminals-Stands live ((k, p) ∷ m) s (here, filed) h =
        prune_terminals-Stands live m (prune_end live s k p) filed
          (prune_end-Stands live s k p here h)

    prune_evidence-terminal_at : (s : AgentState) → (prune_evidence s).terminal_at ≡ s.terminal_at
    unfolding prune_evidence
    prune_evidence-terminal_at s = ground arith

    prune_evidence-Stands :
        (s : AgentState) → Stands how token s → Stands how token (prune_evidence s)
    unfolding prune_evidence
    prune_evidence-Stands s h = record {
      ended = ground (arith, h.ended);
      ahead = ground (arith, h.ahead);
      newest = ground (arith, h.newest);
    }

    pub prune-Stands :
        (s : AgentState)
        → IsAll IsFiled s.terminal_at
        → Stands how token s
        → Stands how token (prune s)
    unfolding prune prune_terminal prune_completed
    prune-Stands s filed h =
        let k =
          prune_terminals-Stands (live_transition_keys (prune_evidence s))
            (prune_evidence s).terminal_at (prune_evidence s)
            (subst (IsAll IsFiled) (sym (prune_evidence-terminal_at s)) filed)
            (prune_evidence-Stands s h) in
        record { ended = k.ended; ahead = k.ahead; newest = k.newest }

-- An operation's end is filed at its target.
abbrev pub target_place : OperationTuple → Position
target_place op = record { plane = op.plane; epoch = op.target.activation_epoch }

filed :
    (s : AgentState) (op : OperationTuple) (how : TerminalKind)
    → (finish s op how).terminal_at ≡ insert (transition_key op) (target_place op) s.terminal_at
unfolding finish release_own_slot
filed s op how = ground arith

-- A transition that has just ended stands, also after the pruning that comes before the save.
pub finish-Stands :
    (s : AgentState) (op : OperationTuple) (how : TerminalKind)
    → IsDistinct s.terminal_at
    → (at s.planes op.plane).coordinate.activation_epoch ≤ op.target.activation_epoch
    → Stands (transition_key op) (target_place op) how s.max_leader_token (prune (finish s op how))
unfolding finish release_own_slot
finish-Stands s op how distinct ahead =
    prune-Stands (transition_key op) (target_place op) how s.max_leader_token (finish s op how)
      (subst (λ m. IsAll (IsFiled (transition_key op) (target_place op)) m) (sym (filed s op how))
        (insert-IsFiled (transition_key op) (target_place op) s.terminal_at distinct))
      (record {
        ended = lookup-insert_self (transition_key op) how (release_own_slot s op).terminal;
        ahead = ground (arith, ahead);
        newest = ground arith;
      })
