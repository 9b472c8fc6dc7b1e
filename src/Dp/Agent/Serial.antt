-- ===== src/Dp/Agent/Serial.antt =====
-- src/dp/agent.ts, `serial`: one operation at a time loads the state, changes it, prunes it, checks
-- it and saves it under the next version. The store refuses a save whose version is not the next
-- one, and the operation starts again from what the store has then, a bounded number of times.
use barycenter.Prelude.{ℕ, Option, none, some, List, [], ◌∷◌, ◌==◌, if◌then◌else◌, ◌+◌, ◌-◌}
use barycenter.Dp.Agent.State.{Rejection, Result, ok, err, AgentState, initial}
use barycenter.Dp.Agent.Prune.{prune}
use barycenter.Dp.Agent.Checks.{Violation, assert_invariants}

-- What the store has; nothing is saved before the first save, and its version is 0.
pub record Store : Type 0 where
  pub version : ℕ
  pub payload : Option AgentState

abbrev pub or_initial : Option AgentState → AgentState
or_initial none = initial
or_initial (some s) = s

pub data Failure : Type 0 where
  rejected : Rejection → Failure
  violated : Violation → Failure
  conflict : Failure

pub data Outcome (A : Type 0) : Type 0 where
  saved : Store → A → Outcome A
  refused : Failure → Outcome A

abbrev pub cas_retry_limit : ℕ
cas_retry_limit = 8

module _ {A : Type 0} (mutate : AgentState → Result (AgentState × A)) where
  -- The state that one attempt would save, from what it has read.
  unfoldable pub prepare : Store → Outcome A
  prepare read = elim (mutate (or_initial read.payload)) [
    | err e ↦ refused (rejected e)
    | ok (next, a) ↦ elim (assert_invariants read.payload (prune next)) [
      | some v ↦ refused (violated v)
      | none ↦ saved (record { version = read.version + 1; payload = some (prune next) }) a
    ]
  ]

  -- The stores that the attempts' saves meet, in turn: other writers may have saved in between.
  -- When the list has run out, nobody interferes.
  unfoldable pub serial : ℕ → Store → List Store → Outcome A
  serial limit read [] = prepare read
  serial limit read (met ∷ later) =
      let again = serial (limit - 1) met later in
      elim (prepare read) [
        | refused f ↦ refused f
        | saved next a ↦
            if next.version == met.version + 1
            then saved next a
            else if limit == 0
            then refused conflict
            else again
      ]
