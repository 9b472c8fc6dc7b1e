-- ===== src/Prelude/Text.antt =====
-- Texts as lists of character codes: what the code does with `split`, `indexOf`, `includes` and
-- `slice`, and numbers in a base.
use Prim.Native.Nat.{ℕ, zero, suc, ◌+◌, ◌-◌, ◌*◌}
use mathlib.Core.Bool.{Bool, true, false, ◌&&◌, ◌||◌}
use mathlib.Core.Option.{Option, none, some}
use mathlib.Core.List.{List, [], ◌∷◌}
use barycenter.Prelude.Tests.{◌==◌, leb, if◌then◌else◌}

abbrev pub Text : Type 0
Text = List ℕ

module _ {A : Type 0} where
  abbrev pub every : (A → Bool) → List A → Bool
  every p [] = true
  every p (x ∷ xs) = p x && every p xs

  abbrev pub length : List A → ℕ
  length [] = 0
  length (x ∷ xs) = suc (length xs)

  abbrev pub last_of : List A → Option A
  last_of [] = none
  last_of (x ∷ []) = some x
  last_of (x ∷ y ∷ xs) = last_of (y ∷ xs)

  -- All but the last element.
  abbrev pub but_last : List A → List A
  but_last [] = []
  but_last (x ∷ []) = []
  but_last (x ∷ y ∷ xs) = x ∷ but_last (y ∷ xs)

  abbrev pub copies : ℕ → A → List A
  copies zero a = []
  copies (suc n) a = a ∷ copies n a

  abbrev pub fold_left : {B : Type 0} → (B → A → B) → B → List A → B
  fold_left f b [] = b
  fold_left f b (x ∷ xs) = fold_left f (f b x) xs

abbrev pub text_eq : Text → Text → Bool
text_eq [] [] = true
text_eq (x ∷ xs) (y ∷ ys) = (x == y) && text_eq xs ys
text_eq _ _ = false

abbrev pub includes : ℕ → Text → Bool
includes c [] = false
includes c (x ∷ xs) = (x == c) || includes c xs

abbrev pub starts_with : Text → Text → Bool
starts_with [] t = true
starts_with (c ∷ p) [] = false
starts_with (c ∷ p) (x ∷ t) = (x == c) && starts_with p t

abbrev pub on_head : ℕ → List Text → List Text
on_head x [] = (x ∷ []) ∷ []
on_head x (t ∷ ts) = (x ∷ t) ∷ ts

-- `split` at a character.
unfoldable pub split : ℕ → Text → List Text
split c [] = [] ∷ []
split c (x ∷ xs) = let rest = split c xs in if x == c then [] ∷ rest else on_head x rest

abbrev with_head : ℕ → Option (Text × Text) → Option (Text × Text)
with_head x none = none
with_head x (some (b, a)) = some (x ∷ b, a)

-- What stands before the first of a character and after it.
unfoldable pub cut : ℕ → Text → Option (Text × Text)
cut c [] = none
cut c (x ∷ xs) = let rest = cut c xs in if x == c then some ([], xs) else with_head x rest

-- The same for two of the character in a row.
unfoldable pub cut_double : ℕ → Text → Option (Text × Text)
cut_double c [] = none
cut_double c (x ∷ []) = none
cut_double c (x ∷ y ∷ xs) =
    let rest = cut_double c (y ∷ xs) in
    if (x == c) && (y == c) then some ([], xs) else with_head x rest

abbrev pub is_digit : ℕ → Bool
is_digit c = leb 48 c && leb c 57

abbrev pub is_hex_digit : ℕ → Bool
is_hex_digit c = is_digit c || (leb 97 c && leb c 102) || (leb 65 c && leb c 70)

abbrev pub hex_value : ℕ → ℕ
hex_value c = if leb c 57 then c - 48 else if leb c 70 then c - 55 else c - 87

-- The number that a text of digits writes.
abbrev pub decimal_value : Text → ℕ
decimal_value t = fold_left (λ n c. n * 10 + (c - 48)) 0 t

abbrev pub hexadecimal_value : Text → ℕ
hexadecimal_value t = fold_left (λ n c. n * 16 + hex_value c) 0 t
