-- ===== src/Dp/Retention/Removed.antt =====
-- What a sweep of the generations removes.
use mathlib.Core.Path.{subst}
use barycenter.Prelude.{
  IsAll, ℕ, ◌≡◌, refl, Bool, true, false, not, Option, some, List, [], ◌∷◌, arith, Bool-cases, inl,
  inr, ◌==◌, nat_eq, ==_iff,
}
use barycenter.Dp.Agent.Prune.{keep, member}
use barycenter.Dp.Retention.{
  SweepOptions, Candidate, set_of, skip, still_held, or_default, name_of, default_keep, candidates,
  doomed, sweep_listed, sweep_generations,
}
use barycenter.Dp.Retention.Newest.{
  IsAll-keep, IsAll-skip, IsAll-kept, IsAll-map, IsAll-with, IsAll-newest_first, IsNewestFirst,
  newest_first-IsNewestFirst,
}
use barycenter.Dp.Retention.Placed.{IsBehind, HasLingered, skip-IsBehind, still_held-HasLingered}

member-other :
    (x n : ℕ) (seen : List ℕ) → member x seen ≡ true → member n seen ≡ false → (x == n) ≡ false
member-other x n seen e f = elim (Bool-cases (x == n)) [
  | inl same ↦
      let there : member n seen ≡ true =
        subst (λ k. member k seen ≡ true) ((==_iff x n).0 same) e in
      absurd (ground arith)
  | inr other ↦ other
]

member-cons :
    (n x : ℕ) (xs : List ℕ) → (x == n) ≡ false → member n xs ≡ false → member n (x ∷ xs) ≡ false
unfolding member
member-cons n x xs e f = ground arith

member-cons_parts :
    (n x : ℕ) (xs : List ℕ) → member n (x ∷ xs) ≡ false → ((x == n) ≡ false) × (member n xs ≡ false)
unfolding member
member-cons_parts n x xs e = (ground arith, ground arith)

set_of-member :
    (n : ℕ) (seen xs : List ℕ)
    → member n (set_of seen xs) ≡ false
    → member n seen ≡ false
    → member n xs ≡ false
unfolding set_of
set_of-member n seen [] e f = unfold member in refl
set_of-member n seen (x ∷ xs) e f = elim (Bool-cases (member x seen)) [
  | inl there ↦
      member-cons n x xs (member-other x n seen there f) (set_of-member n seen xs (rw there at e) f)
  | inr new ↦
      let parts = member-cons_parts n x (set_of (x ∷ seen) xs) (rw new at e) in
      member-cons n x xs parts.0
        (set_of-member n (x ∷ seen) xs parts.1 (member-cons n x seen parts.0 f))
]

module _ (bootstrap : ℕ) (mtime_of : ℕ → Option ℕ) (removable : ℕ → Bool) where
  -- The candidates, the newest first.
  abbrev pub listed : List ℕ → List ℕ → List Candidate
  listed protect entries = candidates bootstrap mtime_of removable (set_of [] protect) entries

  -- A generation that may go: nobody protects it, it is not the bootstrap one, as many other
  -- candidates as are kept stand before it and are at least as new, and the one next to it is at
  -- least as old as the linger time, if one is set.
  pub record IsGarbage (opts : SweepOptions) (entries : List ℕ) (n : ℕ) : Type 0 where
    pub unprotected : member n opts.protect ≡ false
    pub not_bootstrap : (n == bootstrap) ≡ false
    pub candidate : Candidate
    pub named : candidate.name ≡ n
    pub dated : candidate.mtime ≡ or_default (mtime_of n) 0
    pub behind :
        IsBehind (or_default opts.keep_count default_keep) (listed opts.protect entries) candidate
    pub lingered : HasLingered opts.now opts.worker_linger_ms behind.before

  -- What a candidate has by the way it was listed.
  record IsListed (protect : List ℕ) (c : Candidate) : Type 0 where
    unprotected : member c.name (set_of [] protect) ≡ false
    not_bootstrap : (c.name == bootstrap) ≡ false
    dated : c.mtime ≡ or_default (mtime_of c.name) 0

  listed-IsListed : (protect entries : List ℕ) → IsAll (IsListed protect) (listed protect entries)
  unfolding candidates
  listed-IsListed protect entries =
      let guard = λ (n : ℕ). not (member n (set_of [] protect)) in
      let other = λ (n : ℕ). not (n == bootstrap) in
      IsAll-newest_first (IsListed protect) _ (
        IsAll-map (IsListed protect)
          (λ (n : ℕ). record { name = n; mtime = or_default (mtime_of n) 0 })
          (keep other (keep guard entries))
          (IsAll-with (λ n. other n ≡ true) (λ n. guard n ≡ true)
            (λ n. IsListed protect (record { name = n; mtime = or_default (mtime_of n) 0 }))
            (keep other (keep guard entries))
            (λ n p q. record {
              unprotected = ground arith;
              not_bootstrap = ground arith;
              dated = refl;
            })
            (IsAll-kept other (keep guard entries))
            (IsAll-keep (λ n. guard n ≡ true) other (keep guard entries)
              (IsAll-kept guard entries))))

  candidates-IsNewestFirst : (protect entries : List ℕ) → IsNewestFirst (listed protect entries)
  unfolding candidates
  candidates-IsNewestFirst protect entries = newest_first-IsNewestFirst _

  module _ (opts : SweepOptions) (entries : List ℕ) where
    abbrev limit : ℕ
    limit = or_default opts.keep_count default_keep

    abbrev cs : List Candidate
    cs = listed opts.protect entries

    abbrev unheld_test : Candidate → Bool
    unheld_test c = not (member c.name (still_held opts.now opts.worker_linger_ms cs))

    doomed_lem :
        (c : Candidate)
        → unheld_test c ≡ true
        → IsListed opts.protect c × IsBehind limit cs c
        → IsGarbage opts entries (name_of c)
    doomed_lem c kept (l, h) = record {
      unprotected = set_of-member c.name [] opts.protect l.unprotected (unfold member in refl);
      not_bootstrap = l.not_bootstrap;
      candidate = c;
      named = refl;
      dated = l.dated;
      behind = h;
      lingered = still_held-HasLingered opts.now opts.worker_linger_ms limit cs c h (ground arith);
    }

    doomed-IsGarbage :
        (limit == 0) ≡ false
        → IsAll (λ c. IsGarbage opts entries (name_of c)) (keep unheld_test (skip limit cs))
    doomed-IsGarbage on =
        IsAll-with (λ c. unheld_test c ≡ true) (λ c. IsListed opts.protect c × IsBehind limit cs c)
          (λ c. IsGarbage opts entries (name_of c)) (keep unheld_test (skip limit cs)) doomed_lem
          (IsAll-kept unheld_test (skip limit cs))
          (IsAll-keep (λ c. IsListed opts.protect c × IsBehind limit cs c) unheld_test
            (skip limit cs)
            (IsAll-with (IsListed opts.protect) (IsBehind limit cs)
              (λ c. IsListed opts.protect c × IsBehind limit cs c) (skip limit cs) (λ c l h. (l, h))
              (IsAll-skip (IsListed opts.protect) limit cs (listed-IsListed opts.protect entries))
              (skip-IsBehind limit cs on (candidates-IsNewestFirst opts.protect entries))))

  -- A sweep removes only garbage: no generation that the caller protects and not the bootstrap one;
  -- of each that it removes, as many other candidates as are kept stand before it, the newest
  -- first, and all of these are at least as new; and the one right before it was made at least the
  -- linger time ago, if one is set.
  pub sweep_generations-IsGarbage :
      (opts : SweepOptions) (entries : List ℕ)
      → IsAll
          (IsGarbage opts entries)
          (sweep_generations bootstrap mtime_of removable opts (some entries)).removed
  unfolding sweep_generations sweep_listed doomed
  sweep_generations-IsGarbage opts entries =
      elim (Bool-cases (or_default opts.keep_count default_keep == 0)) [
        | inl off ↦ rw off tt
        | inr on ↦ rw on (
            IsAll-keep (IsGarbage opts entries) removable _
              (IsAll-map (IsGarbage opts entries) name_of _ (doomed-IsGarbage opts entries on)))
      ]
