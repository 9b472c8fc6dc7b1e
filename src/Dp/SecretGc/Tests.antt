-- ===== src/Dp/SecretGc/Tests.antt =====
-- A sweep of src/dp/secret-gc.ts over four versions of one secret.
use barycenter.Prelude.{ℕ, ◌≡◌, refl, List, [], ◌∷◌, IsAll, lookup, insert}
use barycenter.Dp.Operation.{Name}
use barycenter.Dp.SecretGc.{
  SweepEntry, by_name, insert_entry, newest_first, first_of, protected_by_age, is_kept,
  partition_for_sweep,
}
use barycenter.Dp.SecretGc.Kept.{IsReplaced, partition_for_sweep-IsReplaced}

abbrev version : Name → ℕ → SweepEntry
version r t = record { ref = r; name = 1; scheme = 0; mtime = t }

abbrev versions : List SweepEntry
versions = version 10 100 ∷ version 11 300 ∷ version 12 200 ∷ version 13 50 ∷ []

-- The oldest is a root, the two newest stay, and the other one goes.
versions_partition : partition_for_sweep versions (13 ∷ []) 2 60 1000 ≡ record {
  keep = version 11 300 ∷ version 12 200 ∷ version 13 50 ∷ [];
  sweep = version 10 100 ∷ [];
}
unfolding partition_for_sweep is_kept protected_by_age by_name newest_first insert_entry first_of
    lookup insert
versions_partition = refl

partition_for_sweep-IsReplaced_example :
    IsAll
      (IsReplaced versions (13 ∷ []) 2 60 1000)
      (partition_for_sweep versions (13 ∷ []) 2 60 1000).sweep
partition_for_sweep-IsReplaced_example = partition_for_sweep-IsReplaced versions (13 ∷ []) 2 60 1000
