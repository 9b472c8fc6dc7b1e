-- ===== src/Prelude/Sorting.antt =====
-- JavaScript's `sort` with a comparison: stable, by insertion.
use mathlib.Core.Path.{◌≡◌, refl, subst}
use mathlib.Core.Logic.{◌⊎◌, ◌↔◌, inl, inr}
use mathlib.Core.Bool.{Bool, true, false}
use mathlib.Core.List.{List, [], ◌∷◌, ◌++◌}
use barycenter.Prelude.Tests.{if◌then◌else◌, Bool-cases}
use barycenter.Prelude.Lists.{IsIn, IsAll, IsAll-append, IsAll-weaken, IsAll-IsIn, IsAll-of}

module _ {A : Type 0} (less : A → A → Bool) where
  unfoldable pub insert_sorted : A → List A → List A
  insert_sorted a [] = a ∷ []
  insert_sorted a (b ∷ bs) =
      let rest = insert_sorted a bs in if less b a then b ∷ rest else a ∷ b ∷ bs

  unfoldable pub sort_by : List A → List A
  sort_by [] = []
  sort_by (a ∷ xs) = insert_sorted a (sort_by xs)

  insert_sorted-IsIn :
      (x a : A) (bs : List A) → (IsIn x (insert_sorted a bs)) ↔ ((a ≡ x) ⊎ IsIn x bs)
  unfolding insert_sorted
  insert_sorted-IsIn x a [] = (λ h. h, λ h. h)
  insert_sorted-IsIn x a (b ∷ bs) = elim (Bool-cases (less b a)) [
    | inl before ↦ rw before (
      λ h. elim h [
        | inl here ↦ inr (inl here)
        | inr rest ↦ elim ((insert_sorted-IsIn x a bs).0 rest) [
          | inl e ↦ inl e
          | inr r ↦ inr (inr r)
        ]
      ],
      λ h. elim h [
        | inl e ↦ inr ((insert_sorted-IsIn x a bs).1 (inl e))
        | inr (inl here) ↦ inl here
        | inr (inr r) ↦ inr ((insert_sorted-IsIn x a bs).1 (inr r))
      ],
    )
    | inr after ↦ rw after (λ h. h, λ h. h)
  ]

  pub sort_by-IsIn : (x : A) (xs : List A) → (IsIn x (sort_by xs)) ↔ (IsIn x xs)
  unfolding sort_by
  sort_by-IsIn x [] = (λ h. h, λ h. h)
  sort_by-IsIn x (a ∷ xs) = (
    λ h. elim ((insert_sorted-IsIn x a (sort_by xs)).0 h) [
      | inl e ↦ inl e
      | inr r ↦ inr ((sort_by-IsIn x xs).0 r)
    ],
    λ h.
        (insert_sorted-IsIn x a (sort_by xs)).1
          (elim h [ inl e ↦ inl e | inr r ↦ inr ((sort_by-IsIn x xs).1 r) ]),
  )

  IsAll-inserted :
      (P : A → Type 0) (a : A) (bs : List A) → (IsAll P (insert_sorted a bs)) ↔ (P a × IsAll P bs)
  IsAll-inserted P a bs = (
    λ h. (
      IsAll-IsIn P a (insert_sorted a bs) h ((insert_sorted-IsIn a a bs).1 (inl refl)),
      IsAll-of P bs
          (λ x m. IsAll-IsIn P x (insert_sorted a bs) h ((insert_sorted-IsIn x a bs).1 (inr m))),
    ),
    λ h. IsAll-of P (insert_sorted a bs) (λ x m. elim ((insert_sorted-IsIn x a bs).0 m) [
      | inl e ↦ subst P e h.0
      | inr there ↦ IsAll-IsIn P x bs h.1 there
    ]),
  )

  pub IsAll-sorted : (P : A → Type 0) (xs : List A) → (IsAll P (sort_by xs)) ↔ IsAll P xs
  IsAll-sorted P xs = (
    λ h. IsAll-of P xs (λ x m. IsAll-IsIn P x (sort_by xs) h ((sort_by-IsIn x xs).1 m)),
    λ h. IsAll-of P (sort_by xs) (λ x m. IsAll-IsIn P x xs h ((sort_by-IsIn x xs).0 m)),
  )

-- Every element is in relation to all that come after it.
abbrev pub IsOrdered : {A : Type 0} → (A → A → Type 0) → List A → Type 0
IsOrdered R [] = Unit {0}
IsOrdered R (a ∷ xs) = IsAll (λ b. R a b) xs × IsOrdered R xs

pub IsOrdered-append :
    {A : Type 0} (R : A → A → Type 0) (xs ys : List A)
    → IsOrdered R xs
    → IsOrdered R ys
    → ((x : A) → IsIn x xs → (y : A) → IsIn y ys → R x y)
    → IsOrdered R (xs ++ ys)
IsOrdered-append R [] ys h k m = k
IsOrdered-append R (x ∷ xs) ys h k m = (
  IsAll-append (R x) xs ys h.0 (IsAll-of (R x) ys (m x (inl refl))),
  IsOrdered-append R xs ys h.1 k (λ z n. m z (inr n)),
)

module _ {A : Type 0} (less : A → A → Bool) (R : A → A → Type 0)
    (of_less : (a b : A) → less a b ≡ true → R a b) (of_not : (a b : A) → less b a ≡ false → R a b)
    (trans : (a b c : A) → R a b → R b c → R a c) where
  insert_sorted-IsAll :
      (x a : A) (bs : List A)
      → R x a
      → IsAll (λ b. R x b) bs
      → IsAll (λ b. R x b) (insert_sorted less a bs)
  unfolding insert_sorted
  insert_sorted-IsAll x a [] h k = (h, tt)
  insert_sorted-IsAll x a (b ∷ bs) h k = elim (Bool-cases (less b a)) [
    | inl before ↦ rw before (k.0, insert_sorted-IsAll x a bs h k.1)
    | inr after ↦ rw after (h, k)
  ]

  insert_sorted-IsOrdered :
      (a : A) (bs : List A) → IsOrdered R bs → IsOrdered R (insert_sorted less a bs)
  unfolding insert_sorted
  insert_sorted-IsOrdered a [] h = (tt, tt)
  insert_sorted-IsOrdered a (b ∷ bs) h = elim (Bool-cases (less b a)) [
    | inl before ↦
        rw before
          (insert_sorted-IsAll b a bs (of_less b a before) h.0, insert_sorted-IsOrdered a bs h.1)
    | inr after ↦
        let first = of_not a b after in
        rw after
          ((first, IsAll-weaken (λ c. R b c) (λ c. R a c) bs (λ c k. trans a b c first k) h.0), h)
  ]

  pub sort_by-IsOrdered : (xs : List A) → IsOrdered R (sort_by less xs)
  unfolding sort_by
  sort_by-IsOrdered [] = tt
  sort_by-IsOrdered (a ∷ xs) = insert_sorted-IsOrdered a (sort_by less xs) (sort_by-IsOrdered xs)

-- A relation that does not look at the order holds of all pairs before and after sorting.
module _ {A : Type 0} (less : A → A → Bool) (D : A → A → Type 0)
    (comm : (a b : A) → D a b → D b a) where
  insert_sorted-IsApart :
      (a : A) (bs : List A)
      → IsOrdered D (insert_sorted less a bs)
      → IsAll (λ b. D a b) bs × IsOrdered D bs
  unfolding insert_sorted
  insert_sorted-IsApart a [] h = (tt, tt)
  insert_sorted-IsApart a (b ∷ bs) h = elim (Bool-cases (less b a)) [
    | inl before ↦
        let here : insert_sorted less a (b ∷ bs) ≡ b ∷ insert_sorted less a bs = rw before refl in
        let both = subst (IsOrdered D) here h in
        let (apart, rest) = insert_sorted-IsApart a bs both.1 in
        let all = (IsAll-inserted less (λ x. D b x) a bs).0 both.0 in
        ((comm b a all.0, apart), (all.1, rest))
    | inr after ↦
        let here : insert_sorted less a (b ∷ bs) ≡ a ∷ b ∷ bs = rw after refl in
        subst (IsOrdered D) here h
  ]

  IsApart-insert_sorted :
      (a : A) (bs : List A)
      → IsAll (λ b. D a b) bs
      → IsOrdered D bs
      → IsOrdered D (insert_sorted less a bs)
  unfolding insert_sorted
  IsApart-insert_sorted a [] h k = (tt, tt)
  IsApart-insert_sorted a (b ∷ bs) h k = elim (Bool-cases (less b a)) [
    | inl before ↦ rw before (
      (IsAll-inserted less (λ x. D b x) a bs).1 (comm a b h.0, k.0),
      IsApart-insert_sorted a bs h.1 k.1,
    )
    | inr after ↦ rw after (h, k)
  ]

  pub sort_by-IsApart : (xs : List A) → (IsOrdered D (sort_by less xs)) ↔ IsOrdered D xs
  unfolding sort_by
  sort_by-IsApart [] = (λ h. h, λ h. h)
  sort_by-IsApart (a ∷ xs) = (
    λ h.
        let (apart, rest) = insert_sorted-IsApart a (sort_by less xs) h in
        ((IsAll-sorted less (λ b. D a b) xs).0 apart, (sort_by-IsApart xs).0 rest),
    λ h.
        IsApart-insert_sorted a (sort_by less xs) ((IsAll-sorted less (λ b. D a b) xs).1 h.0)
          ((sort_by-IsApart xs).1 h.1),
  )
