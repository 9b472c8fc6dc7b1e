-- ===== src/Control/Health/Streaks.antt =====
-- What the row of one backend says of the results that were taken for it.
use barycenter.Prelude.{
  ℕ, ◌≡◌, ◌≤◌, ◌<◌, refl, Bool, true, false, Option, none, some, List, [], ◌∷◌, ◌+◌, leb, arith,
  if◌then◌else◌, Bool-cases, inl, inr,
}
use barycenter.Control.Health.{
  HealthState, healthy, unhealthy, HealthRow, ProbeResult, Thresholds, rise_of, fall_of, prev_seq,
  prev_state, same_bool, streak_of, next_state, row_after, observe, same_state,
}

-- The row of a backend after results that came in, the newest first in the list.
unfoldable pub watch : Thresholds → List ProbeResult → Option HealthRow
watch th [] = none
watch th (r ∷ past) = (observe th (watch th past) r).0

abbrev pub newest_seq : List ProbeResult → ℕ
newest_seq [] = 0
newest_seq (r ∷ past) = r.seq

-- The results that are taken: each has a higher number than all that were taken before it.
unfoldable pub taken : List ProbeResult → List ProbeResult
taken [] = []
taken (r ∷ past) =
    let before = taken past in if leb r.seq (newest_seq before) then before else r ∷ before

-- How many of the newest results went as is asked, without a break.
unfoldable pub run_length : Bool → List ProbeResult → ℕ
run_length good [] = 0
run_length good (r ∷ past) =
    let rest = run_length good past in if same_bool r.ok good then rest + 1 else 0

-- A row that stands for the results that were taken.
pub data IsSummary : List ProbeResult → Option HealthRow → Type 0 where
  nothing_taken : IsSummary [] none
  last_taken :
      (r : ProbeResult) (past : List ProbeResult) (row : HealthRow)
      → row.probe_start_seq ≡ r.seq
      → row.last_ok ≡ r.ok
      → row.consecutive ≡ run_length r.ok (r ∷ past)
      → IsSummary (r ∷ past) (some row)

IsSummary-seq :
    {past : List ProbeResult} {row : Option HealthRow}
    → IsSummary past row
    → prev_seq row ≡ newest_seq past
IsSummary-seq nothing_taken = refl
IsSummary-seq (last_taken r past row seq good count) = seq

pub IsSummary-streak :
    {past : List ProbeResult} {row : Option HealthRow} (r : ProbeResult)
    → IsSummary past row
    → streak_of row r.ok ≡ run_length r.ok (r ∷ past)
unfolding run_length
IsSummary-streak r nothing_taken = ground arith
IsSummary-streak r (last_taken q past row seq good count) = ground arith

-- The state that a result speaks for, and how many such results in a row it takes.
abbrev pub verdict : Bool → HealthState
verdict true = healthy
verdict false = unhealthy

abbrev pub threshold : Thresholds → ProbeResult → ℕ
threshold th r = if r.ok then rise_of th r.pool else fall_of th r.pool

next_state_lem :
    (prev : HealthState) (good : Bool) (streak rise fall : ℕ)
    → (if good then rise else fall) ≤ streak
    → next_state prev good streak rise fall ≡ verdict good
unfolding next_state
next_state_lem prev true streak rise fall enough = ground arith
next_state_lem prev false streak rise fall enough = ground arith

next_state_kept :
    (prev : HealthState) (good : Bool) (streak rise fall : ℕ)
    → same_state (next_state prev good streak rise fall) prev ≡ false
    → ((if good then rise else fall) ≤ streak)
      × (next_state prev good streak rise fall ≡ verdict good)
unfolding next_state
next_state_kept prev true streak rise fall differs = (ground arith, ground arith)
next_state_kept prev false streak rise fall differs = (ground arith, ground arith)

observe-verdict :
    (th : Thresholds) (row : Option HealthRow) (r : ProbeResult) {now : HealthState}
    → (observe th row r).1 ≡ some now
    → (prev_seq row < r.seq) × (now ≡ verdict r.ok) × (threshold th r ≤ streak_of row r.ok)
unfolding observe row_after
observe-verdict th row r {now} e = elim (Bool-cases (leb r.seq (prev_seq row))) [
  | inl old ↦ cc
  | inr new ↦
      let kept =
        next_state_kept (prev_state row) r.ok (streak_of row r.ok) (rise_of th r.pool)
          (fall_of th r.pool) (ground arith) in
      (ground arith, ground arith, kept.0)
]

observe-settles :
    (th : Thresholds) (row : Option HealthRow) (r : ProbeResult)
    → prev_seq row < r.seq
    → threshold th r ≤ streak_of row r.ok
    → prev_state (observe th row r).0 ≡ verdict r.ok
unfolding observe row_after
observe-settles th row r newer enough =
    let taken_now : leb r.seq (prev_seq row) ≡ false = ground arith in
    rw taken_now (next_state_lem (prev_state row) r.ok _ _ _ enough)

-- The two branches of an observation.
observe-IsSummary :
    (th : Thresholds) (past : List ProbeResult) (row : Option HealthRow) (r : ProbeResult)
    → IsSummary past row
    → IsSummary (if leb r.seq (newest_seq past) then past else r ∷ past) (observe th row r).0
unfolding observe row_after
observe-IsSummary th past row r h = elim (Bool-cases (leb r.seq (newest_seq past))) [
  | inl old ↦ rw (IsSummary-seq h, old) h
  | inr new ↦
      rw (IsSummary-seq h, new)
        (last_taken r past (row_after th row r) refl refl (IsSummary-streak r h))
]

-- After any results of one backend, in any order of arrival, its row stands for those that were
-- taken, and these are the ones with a higher number than all that were taken before: the row has
-- the number and the outcome of the newest, and counts how many of the newest in a row had that
-- outcome; there is no row exactly if none was taken.
pub watch-IsSummary :
    (th : Thresholds) (past : List ProbeResult) → IsSummary (taken past) (watch th past)
unfolding watch taken
watch-IsSummary th [] = nothing_taken
watch-IsSummary th (r ∷ past) =
    observe-IsSummary th (taken past) (watch th past) r (watch-IsSummary th past)

-- If an observation flips a backend, then its result is newer than all that were taken, the new
-- state is the one that the result speaks for, and as many results in a row as the pool's
-- threshold asks for, the last one included, had that outcome.
pub observe-flip :
    (th : Thresholds) (past : List ProbeResult) (r : ProbeResult) {now : HealthState}
    → (observe th (watch th past) r).1 ≡ some now
    → (newest_seq (taken past) < r.seq)
      × (now ≡ verdict r.ok)
      × (threshold th r ≤ run_length r.ok (r ∷ taken past))
unfolding observe row_after
observe-flip th past r {now} e =
    let h = watch-IsSummary th past in
    let seq = IsSummary-seq h in
    let streak = IsSummary-streak r h in
    let (newer, said, enough) = observe-verdict th (watch th past) r e in
    (ground (arith, seq), said, ground (arith, streak))

-- Once as many results in a row as the threshold of the newest one's pool asks for have had the
-- same outcome, the backend is in the state that they speak for, whatever came before.
pub watch-settles :
    (th : Thresholds) (past : List ProbeResult) (r : ProbeResult)
    → newest_seq (taken past) < r.seq
    → threshold th r ≤ run_length r.ok (r ∷ taken past)
    → prev_state (watch th (r ∷ past)) ≡ verdict r.ok
unfolding watch observe row_after
watch-settles th past r newer enough =
    let h = watch-IsSummary th past in
    let seq = IsSummary-seq h in
    let streak = IsSummary-streak r h in
    observe-settles th (watch th past) r (ground (arith, seq)) (ground (arith, streak))
