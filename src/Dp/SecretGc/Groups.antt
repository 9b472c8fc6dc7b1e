-- ===== src/Dp/SecretGc/Groups.antt =====
-- The versions of one name among all, and those of them that the age protects.
use barycenter.Prelude.{
  ℕ, zero, suc, ◌≡◌, refl, sym, ap, ◌∙◌, inl, inr, arith, Bool, true, ◌||◌, Option, some, List, [],
  ◌∷◌, ◌++◌, Assoc, lookup, insert, lookup-insert, Bool-cases,
}
use barycenter.Dp.Operation.{Name}
use barycenter.Dp.SecretGc.{
  SweepEntry, Group, group_eq, group_eq_iff, group_keys, group_of, or_empty, by_name, newest_first,
  first_of, has_ref, protected_by_age, select,
}

-- The entries of one name, in their order.
abbrev pub of_group : Group → List SweepEntry → List SweepEntry
of_group g es = select (λ e. group_eq (group_of e) g) es

append_nil : (xs : List SweepEntry) → xs ++ [] ≡ xs
append_nil [] = refl
append_nil (x ∷ xs) = ap (λ r. x ∷ r) (append_nil xs)

append_assoc : (xs ys zs : List SweepEntry) → (xs ++ ys) ++ zs ≡ xs ++ (ys ++ zs)
append_assoc [] ys zs = refl
append_assoc (x ∷ xs) ys zs = ap (λ r. x ∷ r) (append_assoc xs ys zs)

pub lookup-by_name :
    (g : Group) (es : List SweepEntry) (m : Assoc Group (List SweepEntry))
    → or_empty (lookup g (by_name es m)) ≡ or_empty (lookup g m) ++ of_group g es
unfolding by_name
lookup-by_name g [] m = sym (append_nil (or_empty (lookup g m)))
lookup-by_name g (e ∷ es) m =
    lookup-by_name g es (insert (group_of e) (or_empty (lookup (group_of e) m) ++ (e ∷ [])) m)
    ∙ elim (Bool-cases (group_eq (group_of e) g)) [
      | inl same ↦
          rw
            (
              lookup-insert (group_of e) g (or_empty (lookup (group_of e) m) ++ (e ∷ [])) m,
              same,
              (group_eq_iff (group_of e) g).0 same,
            )
            (append_assoc (or_empty (lookup g m)) (e ∷ []) (of_group g es))
      | inr other ↦
          rw (lookup-insert (group_of e) g (or_empty (lookup (group_of e) m) ++ (e ∷ [])) m, other)
            refl
    ]

has_ref-append :
    (r : Name) (xs ys : List SweepEntry) → has_ref r (xs ++ ys) ≡ (has_ref r xs || has_ref r ys)
has_ref-append r [] ys = refl
has_ref-append r (x ∷ xs) ys = ground (arith, has_ref-append r xs ys)

first_of-nil : (n : ℕ) → first_of n [] ≡ []
unfolding first_of
first_of-nil zero = refl
first_of-nil (suc n) = refl

abbrev ref_of : Name → ℕ → Option (List SweepEntry) → Bool
ref_of r n o = has_ref r (first_of n (newest_first (or_empty o)))

pub or_true : (b : Bool) → (b || true) ≡ true
or_true b = ground arith

pub protected-lookup :
    (r : Name) (n : ℕ) (g : Group) (m : Assoc Group (List SweepEntry))
    → has_ref r (first_of n (newest_first (or_empty (lookup g m)))) ≡ true
    → has_ref r (protected_by_age n m) ≡ true
unfolding protected_by_age lookup newest_first
protected-lookup r n g [] h = ap (λ xs. has_ref r xs) (sym (first_of-nil n)) ∙ h
protected-lookup r n g ((k, entries) ∷ m) h = elim (Bool-cases (group_eq k g)) [
  | inl same ↦
      let found : lookup g ((k, entries) ∷ m) ≡ some entries = rw same refl in
      let here : has_ref r (first_of n (newest_first entries)) ≡ true =
        sym (ap (ref_of r n) found) ∙ h in
      rw (has_ref-append r (first_of n (newest_first entries)) (protected_by_age n m), here) refl
  | inr other ↦
      let later : lookup g ((k, entries) ∷ m) ≡ lookup g m = rw other refl in
      let rest = protected-lookup r n g m (sym (ap (ref_of r n) later) ∙ h) in
      rw (has_ref-append r (first_of n (newest_first entries)) (protected_by_age n m), rest)
        (or_true _)
]
