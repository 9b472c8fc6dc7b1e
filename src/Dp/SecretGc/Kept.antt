-- ===== src/Dp/SecretGc/Kept.antt =====
-- What a sweep of secrets leaves: the newest versions of every name stay.
use barycenter.Prelude.{
  ℕ, ◌≡◌, ◌≤◌, refl, sym, ap, ◌∙◌, inl, inr, arith, Bool, true, false, not, List, [], ◌∷◌, ◌+◌,
  lookup, IsAll, Bool-cases,
}
use barycenter.Prelude.Text.{length}
use barycenter.Dp.Operation.{Name}
use barycenter.Dp.SecretGc.{
  SweepEntry, Group, group_eq, group_eq_iff, group_keys, group_of, by_name, newest_first, first_of,
  has_ref, has_root, protected_by_age, is_kept, select, partition_for_sweep,
}
use barycenter.Dp.SecretGc.Groups.{of_group, lookup-by_name, or_true, protected-lookup}
use barycenter.Dp.SecretGc.Newest.{
  IsOf, IsAll-map, newest_first-IsNewestFirst, newest_first-IsOf, first_of-lem,
}

select-IsOf :
    (p : SweepEntry → Bool) (e : SweepEntry) (xs : List SweepEntry)
    → IsOf e xs
    → p e ≡ true
    → IsOf e (select p xs)
unfolding IsOf
select-IsOf p e [] k h = k
select-IsOf p e (x ∷ xs) (inl here) h = rw (here, h) (inl refl)
select-IsOf p e (x ∷ xs) (inr rest) h = elim (Bool-cases (p x)) [
  | inl passes ↦ rw passes (inr (select-IsOf p e xs rest h))
  | inr fails ↦ rw fails (select-IsOf p e xs rest h)
]

-- What holds of the entries of a list that pass a test holds of all that are selected.
IsAll-select :
    (P : SweepEntry → Type 0) (p : SweepEntry → Bool) (xs : List SweepEntry)
    → ((e : SweepEntry) → IsOf e xs → p e ≡ true → P e)
    → IsAll P (select p xs)
unfolding IsOf
IsAll-select P p [] f = tt
IsAll-select P p (x ∷ xs) f = elim (Bool-cases (p x)) [
  | inl passes ↦ rw passes (f x (inl refl) passes, IsAll-select P p xs (λ e k. f e (inr k)))
  | inr fails ↦ rw fails (IsAll-select P p xs (λ e k. f e (inr k)))
]

own_refs : (xs : List SweepEntry) → IsAll (λ x. has_ref x.ref xs ≡ true) xs
own_refs [] = tt
own_refs (x ∷ xs) = (
  ground arith,
  IsAll-map (λ y. has_ref y.ref xs ≡ true) (λ y. has_ref y.ref (x ∷ xs) ≡ true) xs
      (λ y h. rw h (or_true _)) (own_refs xs),
)

-- The newest versions of a name.
abbrev pub newest_of : ℕ → Group → List SweepEntry → List SweepEntry
newest_of n g all = first_of n (newest_first (of_group g all))

-- What is true of an entry that may go.
pub record IsReplaced (all : List SweepEntry) (roots : List Name) (n age now : ℕ) (e : SweepEntry)
    : Type 0 where
  pub unrooted : has_root e.ref roots ≡ false
  pub old : e.mtime + age ≤ now
  pub enough : length (newest_of n (group_of e) all) ≡ n
  pub newer : IsAll (λ x. e.mtime ≤ x.mtime) (newest_of n (group_of e) all)
  pub stay : IsAll (λ x. is_kept roots n age now all x ≡ true) (newest_of n (group_of e) all)

protected-newest :
    (r : Name) (n : ℕ) (g : Group) (all : List SweepEntry)
    → has_ref r (newest_of n g all) ≡ true
    → has_ref r (protected_by_age n (by_name all [])) ≡ true
unfolding lookup
protected-newest r n g all h =
    protected-lookup r n g (by_name all [])
      (ap (λ xs. has_ref r (first_of n (newest_first xs))) (lookup-by_name g all []) ∙ h)

-- What is kept for its age, and what is not kept at all.
module _ (all : List SweepEntry) (roots : List Name) (n age now : ℕ) where
  kept_by_age :
      (x : SweepEntry)
      → has_ref x.ref (protected_by_age n (by_name all [])) ≡ true
      → is_kept roots n age now all x ≡ true
  unfolding is_kept
  kept_by_age x h = ground arith

  not_kept :
      (e : SweepEntry)
      → not (is_kept roots n age now all e) ≡ true
      → (has_root e.ref roots ≡ false)
        × ((has_ref e.ref (protected_by_age n (by_name all [])) ≡ false) × (e.mtime + age ≤ now))
  unfolding is_kept
  not_kept e h = (ground arith, (ground arith, ground arith))

  absent-newest :
      (e : SweepEntry)
      → has_ref e.ref (protected_by_age n (by_name all [])) ≡ false
      → has_ref e.ref (newest_of n (group_of e) all) ≡ false
  absent-newest e h = elim (Bool-cases (has_ref e.ref (newest_of n (group_of e) all))) [
    | inl there ↦ absurd (true-false (sym (protected-newest e.ref n (group_of e) all there) ∙ h))
    | inr gone ↦ gone
  ]
    where
      true-false : true ≡ false → ⊥
      true-false e = ground arith

  swept-IsReplaced :
      (e : SweepEntry)
      → IsOf e all
      → not (is_kept roots n age now all e) ≡ true
      → IsReplaced all roots n age now e
  swept-IsReplaced e k swept =
      let (unrooted, (unprotected, old)) = not_kept e swept in
      let beyond =
        first_of-lem n e (newest_first (of_group (group_of e) all))
          (newest_first-IsNewestFirst (of_group (group_of e) all))
          (newest_first-IsOf e (of_group (group_of e) all) (
            select-IsOf (λ d. group_eq (group_of d) (group_of e)) e all k
              ((group_eq_iff (group_of e) (group_of e)).1 refl)))
          (absent-newest e unprotected) in
      record {
        unrooted = unrooted;
        old = old;
        enough = beyond.0;
        newer = beyond.1;
        stay =
            IsAll-map (λ x. has_ref x.ref (newest_of n (group_of e) all) ≡ true)
              (λ x. is_kept roots n age now all x ≡ true) (newest_of n (group_of e) all)
              (λ x h. kept_by_age x (protected-newest x.ref n (group_of e) all h))
              (own_refs (newest_of n (group_of e) all));
      }

  -- Whatever a sweep removes is referenced by no root and at least of the minimal age, and of the
  -- newest versions of its name there are as many as are to be kept, all of them at least as new as
  -- it, and all of them stay.
  pub partition_for_sweep-IsReplaced :
      IsAll (IsReplaced all roots n age now) (partition_for_sweep all roots n age now).sweep
  unfolding partition_for_sweep
  partition_for_sweep-IsReplaced =
      IsAll-select (IsReplaced all roots n age now) (λ e. not (is_kept roots n age now all e)) all
        swept-IsReplaced
