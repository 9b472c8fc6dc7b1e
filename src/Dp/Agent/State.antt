-- ===== src/Dp/Agent/State.antt =====
-- src/dp/agent.ts, the types: the state that the agent keeps, the tuple of one plane's step, the
-- keys of its dictionaries. Identifiers hold no separator, so a
-- joined key is the tuple of its parts.
use barycenter.Prelude.{
  ℕ, ◌≡◌, ◌↔◌, Bool, true, false, ◌&&◌, Option, none, List, [], arith, ◌==◌, Eq, Assoc,
}
use barycenter.Dp.Operation.{
  Name, Plane, plane_eq, PerPlane, both, Coordinate, ApplyOperation, PlaneProgress,
  ActivationEvidence, PublishRecord, ApplyPhase,
}

-- Who wrote: the parts that name a transition, and the token of the leader that ran it.
pub record PlaneAuthor : Type 0 where
  pub operation_id : Name
  pub transition_id : Name
  pub leader_token : ℕ

pub record PlaneState : Type 0 where
  pub coordinate : Coordinate
  pub payload_digest : Name
  pub by : Option PlaneAuthor

pub record OperationTuple : Type 0 where
  pub leader_token : ℕ
  pub operation_id : Name
  pub transition_id : Name
  pub plane : Plane
  pub expected_current : Coordinate
  pub target : Coordinate
  pub payload_digest : Name
  pub target_generation : Name
  pub generation_digest : Name

pub record PlaneAck : Type 0 where
  pub state : PlaneState
  pub plane : Plane
  pub transition_id : Name
  pub cached : Bool

pub data TerminalKind : Type 0 where
  activated failed aborted : TerminalKind

-- The kinds of a `DpRejection`; `terminal` carries how the transition ended.
pub data Rejection : Type 0 where
  stale_leader slot_taken not_reserved tuple_mismatch stale_state coordinate_mismatch : Rejection
  digest_mismatch epoch_not_monotonic not_staged operation_in_flight journal_conflict : Rejection
  invalid_coordinate empty_envelope envelope_mismatch not_activated malformed_request : Rejection
  terminal : TerminalKind → Rejection

pub data Result (A : Type 0) : Type 0 where
  ok : A → Result A
  err : Rejection → Result A

-- What follows a rejection is not run.
infixl 5 ◌>>=◌ ◌>>◌
abbrev pub ◌>>=◌ : {First Last : Type 0} → Result First → (First → Result Last) → Result Last
err why >>= go_on = err why
ok first >>= go_on = go_on first

abbrev pub ◌>>◌ : {Last : Type 0} → Result (Unit {0}) → Result Last → Result Last
check >> rest = check >>= λ passed. rest

-- `if (test) throw new DpRejection(kind)`.
abbrev pub reject_if : Bool → Rejection → Result (Unit {0})
reject_if true e = err e
reject_if false e = ok tt

pub record Reservation : Type 0 where
  pub op : OperationTuple
  pub staged_digest : Option Name

pub record ActiveOperation : Type 0 where
  pub operation_id : Name
  pub transition_id : Name
  pub leader_token : ℕ
  pub planes : List Plane
  pub epochs : PerPlane (Option ℕ)

pub record JournalEntry : Type 0 where
  pub op : ApplyOperation
  pub phase : ApplyPhase
  pub reload_attempts : ℕ
  pub seq : ℕ
  pub progress : PerPlane (Option PlaneProgress)
  pub evidence : Option ActivationEvidence
  pub failure : Option Name

pub data StepName : Type 0 where
  reserve stage commit health : StepName

abbrev pub step_eq : StepName → StepName → Bool
step_eq reserve reserve = true
step_eq stage stage = true
step_eq commit commit = true
step_eq health health = true
step_eq _ _ = false

-- `transitionKey`, and the key without a token that older states hold.
pub data TerminalKey : Type 0 where
  of_transition : PlaneAuthor → Plane → TerminalKey
  of_legacy : Name → Name → Plane → TerminalKey

abbrev pub same_identity : PlaneAuthor → PlaneAuthor → Bool
same_identity a b =
    a.operation_id == b.operation_id
    && a.transition_id == b.transition_id
    && a.leader_token == b.leader_token

abbrev pub terminal_key_eq : TerminalKey → TerminalKey → Bool
terminal_key_eq (of_transition a p) (of_transition b q) = same_identity a b && plane_eq p q
terminal_key_eq (of_legacy o t p) (of_legacy u v q) = o == u && t == v && plane_eq p q
terminal_key_eq (of_transition _ _) (of_legacy _ _ _) = false
terminal_key_eq (of_legacy _ _ _) (of_transition _ _) = false

pub terminal_key_eq_iff : (a b : TerminalKey) → (terminal_key_eq a b ≡ true) ↔ (a ≡ b)
terminal_key_eq_iff (of_transition a p) (of_transition b q) = ground arith
terminal_key_eq_iff (of_legacy o t p) (of_legacy u v q) = ground arith
terminal_key_eq_iff (of_transition _ _) (of_legacy _ _ _) = ground arith
terminal_key_eq_iff (of_legacy _ _ _) (of_transition _ _) = ground arith

instance abbrev pub terminal_keys : Eq TerminalKey
terminal_keys = record { beq = terminal_key_eq; beq_iff = terminal_key_eq_iff }

-- The key of an answered step.
pub record CompletedKey : Type 0 where
  pub who : PlaneAuthor
  pub plane : Plane
  pub step : StepName

abbrev pub completed_key_eq : CompletedKey → CompletedKey → Bool
completed_key_eq a b =
    same_identity a.who b.who && plane_eq a.plane b.plane && step_eq a.step b.step

pub completed_key_eq_iff : (a b : CompletedKey) → (completed_key_eq a b ≡ true) ↔ (a ≡ b)
completed_key_eq_iff a b = ground arith

instance abbrev pub completed_keys : Eq CompletedKey
completed_keys = record { beq = completed_key_eq; beq_iff = completed_key_eq_iff }

-- Older states hold no `transition`.
pub record Completed : Type 0 where
  pub tuple : OperationTuple
  pub payload_digest : Name
  pub ack : PlaneAck
  pub transition : Option PlaneAuthor

-- A position: the key of an evidence.
pub record Position : Type 0 where
  pub plane : Plane
  pub epoch : ℕ

abbrev pub position_eq : Position → Position → Bool
position_eq a b = plane_eq a.plane b.plane && a.epoch == b.epoch

pub position_eq_iff : (a b : Position) → (position_eq a b ≡ true) ↔ (a ≡ b)
position_eq_iff a b = ground arith

instance abbrev pub position_keys : Eq Position
position_keys = record { beq = position_eq; beq_iff = position_eq_iff }

-- A `terminalAt` that is not there is the empty one.
pub record AgentState : Type 0 where
  pub max_leader_token : ℕ
  pub planes : PerPlane PlaneState
  pub reservations : PerPlane (Assoc ℕ Reservation)
  pub completed : Assoc CompletedKey Completed
  pub terminal : Assoc TerminalKey TerminalKind
  pub terminal_at : Assoc TerminalKey Position
  pub activation_evidence : Assoc Position ActivationEvidence
  pub active_operation : Option ActiveOperation
  pub last_activated : Option PublishRecord
  pub last_publish_intent : Option PublishRecord
  pub pending_activation : Option PublishRecord
  pub pending_epochs : Option (PerPlane (Option ℕ))
  pub journal : Option JournalEntry

abbrev pub zero_state : PlaneState
zero_state = record {
  coordinate = record { activation_epoch = 0; membership_revision = 0 };
  payload_digest = 0;
  by = none;
}

unfoldable pub initial : AgentState
initial = record {
  max_leader_token = 0;
  planes = both zero_state;
  reservations = both [];
  completed = [];
  terminal = [];
  terminal_at = [];
  activation_evidence = [];
  active_operation = none;
  last_activated = none;
  last_publish_intent = none;
  pending_activation = none;
  pending_epochs = none;
  journal = none;
}
