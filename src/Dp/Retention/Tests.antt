-- ===== src/Dp/Retention/Tests.antt =====
-- A sweep of six directories, of which two are kept: 9 is the bootstrap generation, 1 is protected,
-- 3 has been inactive for too short a time, so that only 2 goes.
use barycenter.Prelude.{IsAll, ℕ, ◌≡◌, refl, Bool, true, Option, some, List, [], ◌∷◌, ◌+◌}
use barycenter.Dp.Agent.Prune.{keep, member, take}
use barycenter.Dp.Retention.{
  SweepOptions, sweep_generations, sweep_listed, doomed, candidates, newest_first, insert_candidate,
  skip, set_of, still_held, held_after,
}
use barycenter.Dp.Retention.Removed.{IsGarbage, sweep_generations-IsGarbage}

abbrev made_at : ℕ → Option ℕ
made_at n = some (100 + n)

abbrev always : ℕ → Bool
always n = true

abbrev options : SweepOptions
options = record { keep_count = some 2; protect = 1 ∷ []; worker_linger_ms = some 50; now = 153 }

abbrev directories : List ℕ
directories = 9 ∷ 1 ∷ 2 ∷ 3 ∷ 4 ∷ 5 ∷ []

removed_names : (sweep_generations 9 made_at always options (some directories)).removed ≡ 2 ∷ []
unfolding sweep_generations sweep_listed doomed candidates newest_first insert_candidate skip set_of
    still_held held_after keep member take
removed_names = refl

sweep_generations-IsGarbage_example :
    IsAll
      (IsGarbage 9 made_at always options directories)
      (sweep_generations 9 made_at always options (some directories)).removed
sweep_generations-IsGarbage_example =
    sweep_generations-IsGarbage 9 made_at always options directories
