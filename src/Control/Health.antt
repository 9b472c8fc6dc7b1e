-- ===== src/Control/Health.antt =====
-- src/control/health.ts, the verdicts of the prober: what a sweep makes of the results of its
-- probes, in one transaction for each. A table's row stands under its backend's key. The text of a
-- failure and the time of the observation are left out; a result says only whether it went well.
pub mod Streaks
pub mod Sweeps
mod Tests
use barycenter.Prelude.{
  ℕ, Bool, true, false, not, ◌&&◌, Option, none, some, List, [], ◌∷◌, ◌+◌, leb, if◌then◌else◌,
  nat_eq, Assoc, lookup, insert,
}

pub data HealthState : Type 0 where
  healthy unhealthy unknown : HealthState

abbrev pub same_state : HealthState → HealthState → Bool
same_state healthy healthy = true
same_state unhealthy unhealthy = true
same_state unknown unknown = true
same_state _ _ = false

pub record HealthRow : Type 0 where
  pub state : HealthState
  pub probe_start_seq : ℕ
  pub consecutive : ℕ
  pub last_ok : Bool

-- The result of a probe, with the number that it got when it started.
pub record ProbeResult : Type 0 where
  pub key : ℕ
  pub seq : ℕ
  pub pool : ℕ
  pub ok : Bool

-- The thresholds that a pool's plan sets.
pub record PoolThresholds : Type 0 where
  pub rise : Option ℕ
  pub fall : Option ℕ

-- The plans of the pools, and the thresholds of the daemon where a plan sets none.
pub record Thresholds : Type 0 where
  pub plans : Assoc ℕ PoolThresholds
  pub default_rise : ℕ
  pub default_fall : ℕ

abbrev or_default : Option ℕ → ℕ → ℕ
or_default none n = n
or_default (some m) n = m

unfoldable pub rise_of : Thresholds → ℕ → ℕ
rise_of th pool = elim (lookup pool th.plans) [
  | none ↦ th.default_rise
  | some plan ↦ or_default plan.rise th.default_rise
]

unfoldable pub fall_of : Thresholds → ℕ → ℕ
fall_of th pool = elim (lookup pool th.plans) [
  | none ↦ th.default_fall
  | some plan ↦ or_default plan.fall th.default_fall
]

abbrev pub prev_seq : Option HealthRow → ℕ
prev_seq none = 0
prev_seq (some row) = row.probe_start_seq

abbrev pub prev_state : Option HealthRow → HealthState
prev_state none = unknown
prev_state (some row) = row.state

abbrev pub same_bool : Bool → Bool → Bool
same_bool true b = b
same_bool false b = not b

abbrev pub streak_of : Option HealthRow → Bool → ℕ
streak_of none good = 1
streak_of (some row) good = if same_bool row.last_ok good then row.consecutive + 1 else 1

-- The two tests of the source, one after the other.
unfoldable pub next_state : HealthState → Bool → ℕ → ℕ → ℕ → HealthState
next_state prev good streak rise fall =
    let risen =
      if good && not (same_state prev healthy) && leb rise streak then healthy else prev in
    if not good && not (same_state prev unhealthy) && leb fall streak then unhealthy else risen

unfoldable pub row_after : Thresholds → Option HealthRow → ProbeResult → HealthRow
unfolding next_state
row_after th row r =
    let streak = streak_of row r.ok in
    record {
      state = next_state (prev_state row) r.ok streak (rise_of th r.pool) (fall_of th r.pool);
      probe_start_seq = r.seq;
      consecutive = streak;
      last_ok = r.ok;
    }

-- One transaction: the row that stands afterwards, and the new state if it is another one.
unfoldable pub observe :
    Thresholds → Option HealthRow → ProbeResult → Option HealthRow × Option HealthState
unfolding row_after
observe th row r =
    if leb r.seq (prev_seq row)
    then (row, none)
    else let new = row_after th row r in
      (some new, if same_state new.state (prev_state row) then none else some new.state)

pub record HealthFlip : Type 0 where
  pub backend_key : ℕ
  pub state : HealthState

abbrev add_flip : ℕ → Option HealthState → List HealthFlip → List HealthFlip
add_flip key none flips = flips
add_flip key (some now) flips = record { backend_key = key; state = now } ∷ flips

abbrev pub write_row : ℕ → Option HealthRow → Assoc ℕ HealthRow → Assoc ℕ HealthRow
write_row key none rows = rows
write_row key (some row) rows = insert key row rows

-- The results in turn: the table afterwards, and the flips.
unfoldable pub sweep :
    Thresholds → Assoc ℕ HealthRow → List ProbeResult → Assoc ℕ HealthRow × List HealthFlip
sweep th rows [] = (rows, [])
sweep th rows (r ∷ rs) =
    let (row, flip) = observe th (lookup r.key rows) r in
    let (rows', flips) = sweep th (write_row r.key row rows) rs in
    (rows', add_flip r.key flip flips)
