-- ===== src/Prelude/Lists.antt =====
-- Lists: what all elements have.
use mathlib.Core.Path.{◌≡◌, refl, sym, ◌∙◌, subst}
use mathlib.Core.Logic.{◌⊎◌, ◌↔◌, inl, inr}
use mathlib.Core.Bool.{Bool, true, false, ◌||◌}
use native.Mathlib.Omega.{arith}
use barycenter.Prelude.Tests.{Bool-cases}
use mathlib.Core.List.{List, [], ◌∷◌, ◌++◌}

abbrev pub IsAll : {A : Type 0} → (A → Type 0) → List A → Type 0
IsAll P [] = Unit {0}
IsAll P (x ∷ xs) = P x × IsAll P xs

-- An element of a list.
abbrev pub IsIn : {A : Type 0} → A → List A → Type 0
IsIn a [] = ⊥
IsIn a (x ∷ xs) = (x ≡ a) ⊎ IsIn a xs

module _ {A : Type 0} where
  pub IsAll-append :
      (P : A → Type 0) (xs ys : List A) → IsAll P xs → IsAll P ys → IsAll P (xs ++ ys)
  IsAll-append P [] ys h k = k
  IsAll-append P (x ∷ xs) ys h k = (h.0, IsAll-append P xs ys h.1 k)

  pub IsAll-weaken :
      (P Q : A → Type 0) (xs : List A) → ((x : A) → P x → Q x) → IsAll P xs → IsAll Q xs
  IsAll-weaken P Q [] f h = tt
  IsAll-weaken P Q (x ∷ xs) f h = (f x h.0, IsAll-weaken P Q xs f h.1)

  pub IsAll-IsIn : (P : A → Type 0) (a : A) (xs : List A) → IsAll P xs → IsIn a xs → P a
  IsAll-IsIn P a [] h k = absurd k
  IsAll-IsIn P a (x ∷ xs) h (inl here) = subst P here h.0
  IsAll-IsIn P a (x ∷ xs) h (inr rest) = IsAll-IsIn P a xs h.1 rest

  pub IsAll-of : (P : A → Type 0) (xs : List A) → ((x : A) → IsIn x xs → P x) → IsAll P xs
  IsAll-of P [] f = tt
  IsAll-of P (x ∷ xs) f = (f x (inl refl), IsAll-of P xs (λ y m. f y (inr m)))

  pub IsIn-append : (a : A) (xs ys : List A) → (IsIn a (xs ++ ys)) ↔ (IsIn a xs ⊎ IsIn a ys)
  IsIn-append a [] ys =
      (λ h. inr h, λ h. elim h [ inl nothing ↦ absurd nothing | inr there ↦ there ])
  IsIn-append a (x ∷ xs) ys = (
    λ h. elim h [
      | inl here ↦ inl (inl here)
      | inr rest ↦ elim ((IsIn-append a xs ys).0 rest) [ inl l ↦ inl (inr l) | inr r ↦ inr r ]
    ],
    λ h. elim h [
      | inl (inl here) ↦ inl here
      | inl (inr l) ↦ inr ((IsIn-append a xs ys).1 (inl l))
      | inr r ↦ inr ((IsIn-append a xs ys).1 (inr r))
    ],
  )

  -- JavaScript's `some`.
  abbrev pub any : (A → Bool) → List A → Bool
  any p [] = false
  any p (x ∷ xs) = p x || any p xs

  pub any_iff :
      (p : A → Bool) (xs : List A) → (any p xs ≡ true) ↔ ((a : A) × IsIn a xs × (p a ≡ true))
  any_iff p [] = (λ h. absurd (ground arith), λ (a, h, k). absurd h)
  any_iff p (x ∷ xs) = (
    λ h. elim (Bool-cases (p x)) [
      | inl good ↦ (x, inl refl, good)
      | inr bad ↦
          let (a, there, good) = (any_iff p xs).0 (sym (or_false (p x) (any p xs) bad) ∙ h) in
          (a, inr there, good)
    ],
    λ (a, there, good). elim there [
      | inl here ↦ rw (here, good) refl
      | inr rest ↦ or_true (p x) (any p xs) ((any_iff p xs).1 (a, rest, good))
    ],
  )
    where
      or_false : (a b : Bool) → a ≡ false → (a || b) ≡ b
      or_false a b h = ground arith

      or_true : (a b : Bool) → b ≡ true → (a || b) ≡ true
      or_true a b h = ground arith

  pub any-IsIn :
      (p : A → Bool) (a : A)
      → ((x : A) → (p x ≡ true) ↔ (x ≡ a))
      → (xs : List A) → (any p xs ≡ true) ↔ IsIn a xs
  any-IsIn p a h xs = (
    λ e. let (x, there, good) = (any_iff p xs).0 e in subst (λ y. IsIn y xs) ((h x).0 good) there,
    λ there. (any_iff p xs).1 (a, there, (h a).1 refl),
  )
