-- ===== src/Dp/SecretGc/Newest.antt =====
-- Versions of secrets, the newest first.
use mathlib.Core.Path.{subst}
use barycenter.Prelude.{
  ℕ, zero, suc, ◌≡◌, ◌≤◌, refl, ap, ◌⊎◌, inl, inr, arith, false, List, [], ◌∷◌, ltb, ◌==◌, IsAll,
  Bool-cases,
}
use barycenter.Prelude.Text.{length}
use barycenter.Dp.Operation.{Name}
use barycenter.Dp.SecretGc.{SweepEntry, group_keys, insert_entry, newest_first, first_of, has_ref}

-- An entry of a list.
unfoldable pub IsOf : SweepEntry → List SweepEntry → Type 0
IsOf e [] = ⊥
IsOf e (x ∷ xs) = (x ≡ e) ⊎ IsOf e xs

pub IsNewestFirst : List SweepEntry → Type 0
IsNewestFirst [] = Unit {0}
IsNewestFirst (x ∷ xs) = IsAll (λ y. y.mtime ≤ x.mtime) xs × IsNewestFirst xs

insert-IsAll :
    (P : SweepEntry → Type 0) (e : SweepEntry) (xs : List SweepEntry)
    → P e
    → IsAll P xs
    → IsAll P (insert_entry e xs)
unfolding insert_entry
insert-IsAll P e [] p h = (p, tt)
insert-IsAll P e (x ∷ xs) p h = elim (Bool-cases (ltb e.mtime x.mtime)) [
  | inl older ↦ rw older (h.0, insert-IsAll P e xs p h.1)
  | inr other ↦ rw other (p, h)
]

pub IsAll-map :
    (P Q : SweepEntry → Type 0) (xs : List SweepEntry)
    → ((x : SweepEntry) → P x → Q x)
    → IsAll P xs
    → IsAll Q xs
IsAll-map P Q [] f h = tt
IsAll-map P Q (x ∷ xs) f h = (f x h.0, IsAll-map P Q xs f h.1)

insert-IsNewestFirst :
    (e : SweepEntry) (xs : List SweepEntry) → IsNewestFirst xs → IsNewestFirst (insert_entry e xs)
unfolding insert_entry IsNewestFirst
insert-IsNewestFirst e [] h = (tt, tt)
insert-IsNewestFirst e (x ∷ xs) h = elim (Bool-cases (ltb e.mtime x.mtime)) [
  | inl older ↦
      rw older (
        insert-IsAll (λ y. y.mtime ≤ x.mtime) e xs (ground arith) h.0,
        insert-IsNewestFirst e xs h.1,
      )
  | inr other ↦ rw other (
    (
      ground arith,
      IsAll-map (λ y. y.mtime ≤ x.mtime) (λ y. y.mtime ≤ e.mtime) xs (λ y le. ground arith) h.0,
    ),
    h,
  )
]

pub newest_first-IsNewestFirst : (xs : List SweepEntry) → IsNewestFirst (newest_first xs)
unfolding newest_first IsNewestFirst
newest_first-IsNewestFirst [] = tt
newest_first-IsNewestFirst (x ∷ xs) =
    insert-IsNewestFirst x (newest_first xs) (newest_first-IsNewestFirst xs)

insert-IsOf :
    (e d : SweepEntry) (xs : List SweepEntry) → IsOf e (d ∷ xs) → IsOf e (insert_entry d xs)
unfolding insert_entry IsOf
insert-IsOf e d [] h = h
insert-IsOf e d (x ∷ xs) h = elim (Bool-cases (ltb d.mtime x.mtime)) [
  | inl older ↦ rw older (moved (λ k. insert-IsOf e d xs k) h)
  | inr other ↦ rw other h
]
  where
    moved :
        ((d ≡ e) ⊎ IsOf e xs → IsOf e (insert_entry d xs))
        → (d ≡ e) ⊎ ((x ≡ e) ⊎ IsOf e xs)
        → (x ≡ e) ⊎ IsOf e (insert_entry d xs)
    moved go (inl here) = inr (go (inl here))
    moved go (inr (inl here)) = inl here
    moved go (inr (inr rest)) = inr (go (inr rest))

pub newest_first-IsOf :
    (e : SweepEntry) (xs : List SweepEntry) → IsOf e xs → IsOf e (newest_first xs)
unfolding newest_first IsOf
newest_first-IsOf e [] h = h
newest_first-IsOf e (x ∷ xs) (inl here) = insert-IsOf e x (newest_first xs) (inl here)
newest_first-IsOf e (x ∷ xs) (inr rest) =
    insert-IsOf e x (newest_first xs) (inr (newest_first-IsOf e xs rest))

of_all :
    (P : SweepEntry → Type 0) (e : SweepEntry) (xs : List SweepEntry) → IsAll P xs → IsOf e xs → P e
unfolding IsOf
of_all P e [] h k = absurd k
of_all P e (x ∷ xs) h (inl here) = subst P here h.0
of_all P e (x ∷ xs) h (inr rest) = of_all P e xs h.1 rest

-- An entry that is not among the first of a list has that many before it.
pub first_of-lem :
    (n : ℕ) (e : SweepEntry) (xs : List SweepEntry)
    → IsNewestFirst xs
    → IsOf e xs
    → has_ref e.ref (first_of n xs) ≡ false
    → (length (first_of n xs) ≡ n) × IsAll (λ x. e.mtime ≤ x.mtime) (first_of n xs)
unfolding first_of IsNewestFirst IsOf
first_of-lem zero e xs h k absent = (refl, tt)
first_of-lem (suc n) e [] h k absent = absurd k
first_of-lem (suc n) e (x ∷ xs) h (inl here) absent =
    absurd (same_ref x.ref e.ref (ap (λ d. d.ref) here) (ground arith))
  where
    same_ref : (a b : Name) → a ≡ b → (a == b) ≡ false → ⊥
    same_ref a b e h = ground arith
first_of-lem (suc n) e (x ∷ xs) h (inr rest) absent =
    let (many, newer) = first_of-lem n e xs h.1 rest (ground arith) in
    (ap (λ k. suc k) many, (of_all (λ y. y.mtime ≤ x.mtime) e xs h.0 rest, newer))
