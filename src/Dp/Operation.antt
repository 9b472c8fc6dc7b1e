-- ===== src/Dp/Operation.antt =====
-- src/dp/operation.ts: the envelope of a mutation, the phases of an apply operation, the evidence
-- of an activation and the record of what is published. Identifiers, digests and generation names
-- are compared for equality only, so a name is a number that stands for the string; a decimal
-- string that `normalizeNumeric` accepts is the number that it writes.
use barycenter.Prelude.{
  ℕ, ◌≡◌, ◌↔◌, Bool, true, false, not, ◌&&◌, Option, none, some, List, [], ◌∷◌, arith, ltb, ◌==◌,
  if◌then◌else◌, Eq,
}

abbrev pub Name : Type 0
Name = ℕ

pub data Plane : Type 0 where
  http stream : Plane

abbrev pub plane_eq : Plane → Plane → Bool
plane_eq http http = true
plane_eq stream stream = true
plane_eq _ _ = false

pub plane_eq_iff : (a b : Plane) → (plane_eq a b ≡ true) ↔ (a ≡ b)
plane_eq_iff a b = ground arith

instance abbrev pub plane_keys : Eq Plane
plane_keys = record { beq = plane_eq; beq_iff = plane_eq_iff }

-- `Record<Plane, A>`; a `Partial` one has options for values.
pub record PerPlane (A : Type 0) : Type 0 where
  pub at_http : A
  pub at_stream : A

abbrev pub at : {A : Type 0} → PerPlane A → Plane → A
at r http = r.at_http
at r stream = r.at_stream

abbrev pub put : {A : Type 0} → PerPlane A → Plane → A → PerPlane A
put r http a = record r { at_http = a }
put r stream a = record r { at_stream = a }

abbrev pub both : {A : Type 0} → A → PerPlane A
both a = record { at_http = a; at_stream = a }

pub record Coordinate : Type 0 where
  pub activation_epoch : ℕ
  pub membership_revision : ℕ

pub record PlaneTarget : Type 0 where
  pub expected_current : Coordinate
  pub target : Coordinate
  pub payload_digest : Name

pub record ApplyOperation : Type 0 where
  pub leader_token : ℕ
  pub operation_id : Name
  pub transition_id : Name
  pub affected_planes : List Plane
  pub planes : PerPlane (Option PlaneTarget)
  pub target_generation : Name
  pub generation_digest : Name

pub data PlaneProgress : Type 0 where
  pending reserved staged committed aborted failed : PlaneProgress

pub record ActivationEvidence : Type 0 where
  pub accepting_generation : Option Name
  pub config_test_passed : Option Bool
  pub error_log_growth : Option ℕ
  pub master_pid : Option Name
  pub workers_reported : Option ℕ
  pub workers_expected : Option ℕ

abbrev pub is_name : Option Name → Name → Bool
is_name none n = false
is_name (some m) n = m == n

abbrev is_refused : Option Bool → Bool
is_refused none = false
is_refused (some passed) = not passed

abbrev has_grown : Option ℕ → Bool
has_grown none = false
has_grown (some n) = ltb 0 n

abbrev falls_short : Option ℕ → Option ℕ → Bool
falls_short (some expected) (some reported) = ltb reported expected
falls_short _ _ = false

-- Every clause is one early return of the source.
unfoldable pub proves_evidence : ActivationEvidence → Name → Bool
proves_evidence e generation =
    if not (is_name e.accepting_generation generation)
    then false
    else if is_refused e.config_test_passed
    then false
    else if has_grown e.error_log_growth
    then false
    else if falls_short e.workers_expected e.workers_reported
    then false
    else true

unfoldable pub proves_activation : Option ActivationEvidence → Name → Bool
unfolding proves_evidence
proves_activation none generation = false
proves_activation (some e) generation = proves_evidence e generation

pub record PublishRecord : Type 0 where
  pub generation : Name
  pub leader_token : ℕ
  pub operation_id : Name
  pub transition_id : Name
  pub generation_digest : Name

pub data PublishedState : Type 0 where
  nothing : PublishedState
  owned : PublishRecord → PublishedState
  inconsistent : Option Name → Option PublishRecord → PublishedState

unfoldable pub published_by_me : PublishedState → ApplyOperation → Bool
published_by_me (owned r) op =
    r.generation == op.target_generation
    && r.generation_digest == op.generation_digest
    && r.operation_id == op.operation_id
    && r.transition_id == op.transition_id
    && r.leader_token == op.leader_token
published_by_me nothing op = false
published_by_me (inconsistent _ _) op = false

pub data ApplyPhase : Type 0 where
  preflight publish_intent published membership_staged reload_intent reload_observed : ApplyPhase
  activated partially_activated partial_exhausted failed superseded no_operation : ApplyPhase

unfoldable pub is_terminal_phase : ApplyPhase → Bool
is_terminal_phase ApplyPhase.activated = true
is_terminal_phase ApplyPhase.partial_exhausted = true
is_terminal_phase ApplyPhase.failed = true
is_terminal_phase ApplyPhase.superseded = true
is_terminal_phase ApplyPhase.no_operation = true
is_terminal_phase _ = false

pub record ApplyResult : Type 0 where
  pub phase : ApplyPhase
  pub progress : PerPlane (Option PlaneProgress)
  pub partial_transition : Bool
  pub evidence : Option ActivationEvidence
  pub failure : Option Name

-- `sort` of the planes by name: `http` stands before `stream`, and duplicates stay.
insert_plane : Plane → List Plane → List Plane
insert_plane p [] = p ∷ []
insert_plane http ps = http ∷ ps
insert_plane stream (http ∷ ps) = http ∷ insert_plane stream ps
insert_plane stream (stream ∷ ps) = stream ∷ stream ∷ ps

sort_planes : List Plane → List Plane
unfolding insert_plane
sort_planes [] = []
sort_planes (p ∷ ps) = insert_plane p (sort_planes ps)

unfoldable pub planes_of : ApplyOperation → List Plane
unfolding sort_planes
planes_of op = sort_planes op.affected_planes
