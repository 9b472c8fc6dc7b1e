-- ===== src/Dp/Retention.antt =====
-- src/dp/retention.ts: which generations a sweep of the disk removes. The directory, the times in
-- it and the removal are the file system's: the listing (none if it cannot be read), the time of
-- each entry (none if it is gone), and whether an entry's removal succeeds are parameters. Times
-- are whole milliseconds, and names are compared for equality only.
pub mod Newest
pub mod Placed
pub mod Removed
mod Tests
use barycenter.Prelude.{
  ℕ, Bool, true, false, not, ◌&&◌, Option, none, some, List, [], ◌∷◌, ◌++◌, map, ◌+◌, ◌-◌, ltb,
  ◌==◌, if◌then◌else◌, nat_eq,
}
use barycenter.Dp.Agent.Prune.{take, keep, member}

abbrev pub default_keep : ℕ
default_keep = 10

pub record SweepOptions : Type 0 where
  pub keep_count : Option ℕ
  pub protect : List ℕ
  pub worker_linger_ms : Option ℕ
  pub now : ℕ

pub record SweepResult : Type 0 where
  pub kept : List ℕ
  pub removed : List ℕ
  pub failed : List ℕ

pub record Candidate : Type 0 where
  pub name : ℕ
  pub mtime : ℕ

abbrev nothing_done : SweepResult
nothing_done = record { kept = []; removed = []; failed = [] }

-- A set of strings in the order of insertion.
unfoldable pub set_of : List ℕ → List ℕ → List ℕ
set_of seen [] = []
set_of seen (x ∷ xs) = if member x seen then set_of seen xs else x ∷ set_of (x ∷ seen) xs

-- A stable sort, the newest first.
unfoldable pub insert_candidate : Candidate → List Candidate → List Candidate
insert_candidate c [] = c ∷ []
insert_candidate c (d ∷ ds) = if ltb c.mtime d.mtime then d ∷ insert_candidate c ds else c ∷ d ∷ ds

unfoldable pub newest_first : List Candidate → List Candidate
newest_first [] = []
newest_first (c ∷ cs) = insert_candidate c (newest_first cs)

unfoldable pub skip : {A : Type 0} → ℕ → List A → List A
skip n [] = []
skip n (x ∷ xs) = let rest = skip (n - 1) xs in if n == 0 then x ∷ xs else rest

-- A candidate has been inactive since the one before it was made.
unfoldable pub held_after : ℕ → ℕ → Candidate → List Candidate → List ℕ
held_after now linger before [] = []
held_after now linger before (c ∷ cs) =
    let rest = held_after now linger c cs in
    if ltb now (before.mtime + linger) then c.name ∷ rest else rest

unfoldable pub still_held : ℕ → Option ℕ → List Candidate → List ℕ
still_held now none cs = []
still_held now (some linger) [] = []
still_held now (some linger) (c ∷ cs) = held_after now linger c cs

abbrev pub or_default : Option ℕ → ℕ → ℕ
or_default none n = n
or_default (some m) n = m

abbrev pub name_of : Candidate → ℕ
name_of c = c.name

module _ (bootstrap : ℕ) (mtime_of : ℕ → Option ℕ) (removable : ℕ → Bool) where
  unfoldable pub candidates : List ℕ → List ℕ → List Candidate
  candidates protect entries = newest_first (
      map (λ (n : ℕ). record { name = n; mtime = or_default (mtime_of n) 0 })
        (keep (λ n. not (n == bootstrap)) (keep (λ n. not (member n protect)) entries)))

  unfoldable pub doomed : List ℕ → ℕ → List Candidate → List Candidate
  doomed held limit cs = keep (λ c. not (member c.name held)) (skip limit cs)

  unfoldable pub sweep_listed : SweepOptions → ℕ → List ℕ → SweepResult
  sweep_listed opts limit entries =
      let protect = set_of [] opts.protect in
      let cs = candidates protect entries in
      let held = still_held opts.now opts.worker_linger_ms cs in
      let names = map name_of (doomed held limit cs) in
      record {
        kept =
            protect
            ++ map name_of (take limit cs)
            ++ map name_of (keep (λ c. member c.name held) (skip limit cs));
        removed = keep removable names;
        failed = keep (λ n. not (removable n)) names;
      }

  unfoldable pub sweep_generations : SweepOptions → Option (List ℕ) → SweepResult
  sweep_generations opts none = nothing_done
  sweep_generations opts (some entries) =
      let limit = or_default opts.keep_count default_keep in
      if limit == 0 then nothing_done else sweep_listed opts limit entries
