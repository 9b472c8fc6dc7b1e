-- ===== src/Prelude/Dictionary.antt =====
-- A JavaScript object used as a dictionary: an association list in the order of insertion, where
-- a write to a key that is there keeps the key's place, and `delete` removes it.
use mathlib.Core.Path.{◌≡◌, refl}
use mathlib.Core.Logic.{◌↔◌}
use mathlib.Core.Bool.{Bool, true, false}
use mathlib.Core.Option.{Option, none, some}
use mathlib.Core.List.{List, [], ◌∷◌}
use native.Mathlib.Omega.{arith}
use barycenter.Prelude.Tests.{if◌then◌else◌, ◌==◌, ==_iff}
use Prim.Native.Nat.{ℕ}

-- Keys are compared by `===`.
pub record Eq {ℓ} (K : Type ℓ) : Type ℓ where
  pub beq : K → K → Bool
  pub beq_iff : (a b : K) → (beq a b ≡ true) ↔ (a ≡ b)

instance abbrev pub nat_eq : Eq ℕ
nat_eq = record { beq = ◌==◌; beq_iff = ==_iff }

abbrev pub Assoc : Type 0 → Type 0 → Type 0
Assoc K V = List (K × V)

abbrev pub is_some : {A : Type 0} → Option A → Bool
is_some none = false
is_some (some a) = true

pub beq_self : {K : Type 0} ⦃e : Eq K⦄ (k : K) → e.beq k k ≡ true
beq_self ⦃e⦄ k = (e.beq_iff k k).1 refl

module _ {K V : Type 0} ⦃e : Eq K⦄ where
  unfoldable pub lookup : K → Assoc K V → Option V
  lookup key (entry ∷ rest) = if e.beq entry.0 key then some entry.1 else lookup key rest
  lookup key [] = none

  -- A write in place, or at the end.
  unfoldable pub insert : K → V → Assoc K V → Assoc K V
  insert key new (entry ∷ rest) =
      if e.beq entry.0 key then (key, new) ∷ rest else entry ∷ insert key new rest
  insert key new [] = (key, new) ∷ []

  unfoldable pub erase : K → Assoc K V → Assoc K V
  erase key (entry ∷ rest) = if e.beq entry.0 key then erase key rest else entry ∷ erase key rest
  erase key [] = []

  pub lookup-insert :
      (written read : K) (new : V) (m : Assoc K V)
      → lookup read (insert written new m)
        ≡ (if e.beq written read then some new else lookup read m)
  unfolding lookup insert
  lookup-insert written read new [] = refl
  lookup-insert written read new ((here, old) ∷ rest) = ground (
    arith,
    e.beq_iff written read,
    e.beq_iff here written,
    e.beq_iff here read,
    lookup-insert written read new rest,
  )

  pub lookup-erase :
      (gone read : K) (m : Assoc K V)
      → lookup read (erase gone m) ≡ (if e.beq gone read then none else lookup read m)
  unfolding lookup erase
  lookup-erase gone read [] = ground arith
  lookup-erase gone read ((here, old) ∷ rest) = ground (
    arith,
    e.beq_iff gone read,
    e.beq_iff here gone,
    e.beq_iff here read,
    lookup-erase gone read rest,
  )

  pub lookup-insert_self :
      (key : K) (new : V) (m : Assoc K V) → lookup key (insert key new m) ≡ some new
  lookup-insert_self key new m = simp (lookup-insert, beq_self)

module _ {K V : Type 0} where
  unfoldable pub keys : Assoc K V → List K
  keys [] = []
  keys ((k, v) ∷ m) = k ∷ keys m
