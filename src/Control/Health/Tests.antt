-- ===== src/Control/Health/Tests.antt =====
-- Runs on concrete results: the probes of one backend and of two.
use barycenter.Prelude.{
  ℕ, ◌≡◌, ◌≤◌, ◌<◌, refl, true, false, none, some, List, [], ◌∷◌, arith, lookup, nat_eq,
}
use barycenter.Control.Health.{
  unhealthy, ProbeResult, Thresholds, fall_of, rise_of, next_state, row_after, observe, sweep,
  prev_state,
}
use barycenter.Control.Health.Streaks.{
  watch, newest_seq, taken, run_length, IsSummary, verdict, threshold, watch-IsSummary,
  observe-flip, watch-settles,
}
use barycenter.Control.Health.Sweeps.{results_of, observe_all, lookup-sweep}

abbrev limits : Thresholds
limits = record {
  plans = (5, record { rise = none; fall = some 3 }) ∷ [];
  default_rise = 1;
  default_fall = 2;
}

abbrev failed_probe : ℕ → ProbeResult
failed_probe seq = record { key = 1; seq = seq; pool = 5; ok = false }

-- The probe with number 2 has come in after the one with number 3.
abbrev two_failures : List ProbeResult
two_failures = failed_probe 2 ∷ failed_probe 3 ∷ failed_probe 1 ∷ []

watch-IsSummary_example : IsSummary (taken two_failures) (watch limits two_failures)
watch-IsSummary_example = watch-IsSummary limits two_failures

observe-flip_example :
    (newest_seq (taken two_failures) < 4)
    × (unhealthy ≡ verdict false)
    × (threshold limits (failed_probe 4) ≤ run_length false (failed_probe 4 ∷ taken two_failures))
unfolding watch observe row_after next_state fall_of rise_of lookup taken run_length
observe-flip_example = observe-flip limits two_failures (failed_probe 4) refl

watch-settles_example : prev_state (watch limits (failed_probe 4 ∷ two_failures)) ≡ unhealthy
unfolding fall_of rise_of lookup taken run_length
watch-settles_example =
    watch-settles limits two_failures (failed_probe 4) (omega arith) (omega arith)

abbrev other_backend : ProbeResult
other_backend = record { key = 2; seq = 5; pool = 6; ok = true }

lookup-sweep_example :
    lookup 1 (sweep limits [] (failed_probe 1 ∷ other_backend ∷ [])).0
    ≡ observe_all limits none (results_of 1 (failed_probe 1 ∷ other_backend ∷ []))
unfolding lookup
lookup-sweep_example = lookup-sweep limits [] (failed_probe 1 ∷ other_backend ∷ []) 1
