-- ===== src/Dp/Agent/SerialTests.antt =====
-- The compare-and-set loop of src/dp/agent.ts, where another agent has saved in between.
use barycenter.Prelude.{ℕ, ◌≢◌, refl, none, some, [], ◌∷◌, arith, keys}
use barycenter.Dp.Agent.State.{Result, AgentState, initial}
use barycenter.Dp.Agent.Rules.{assert_leader}
use barycenter.Dp.Agent.Verbs.{fence, fence_holder}
use barycenter.Dp.Agent.Prune.{
  prune, prune_evidence, prune_terminal, prune_terminals, prune_completed, erase_all,
}
use barycenter.Dp.Agent.Checks.{assert_invariants}
use barycenter.Dp.Agent.Serial.{
  Store, conflict, saved, refused, prepare, serial, cas_retry_limit, Outcome,
}
use barycenter.Dp.Agent.Linear.{IsSavedFrom, serial-IsSavedFrom, serial-conflict}

abbrev fence_three : AgentState → Result (AgentState × ℕ)
fence_three s = fence s 3

abbrev empty_store : Store
empty_store = record { version = 0; payload = none }

abbrev other_save : Store
other_save = record { version = 1; payload = some initial }

abbrev store_after : Outcome ℕ → Store
store_after (saved next a) = next
store_after (refused f) = empty_store

serial-IsSavedFrom_example :
    IsSavedFrom fence_three
      (empty_store ∷ other_save ∷ [])
      (store_after (serial fence_three cas_retry_limit empty_store (other_save ∷ [])))
      3
unfolding serial prepare fence fence_holder assert_leader initial prune prune_evidence
    prune_terminal prune_terminals prune_completed assert_invariants keys erase_all
serial-IsSavedFrom_example =
    serial-IsSavedFrom fence_three cas_retry_limit empty_store (other_save ∷ []) refl

serial-conflict_example :
    serial fence_three cas_retry_limit empty_store (other_save ∷ []) ≢ refused conflict
serial-conflict_example =
    serial-conflict fence_three cas_retry_limit empty_store (other_save ∷ []) (omega arith)
