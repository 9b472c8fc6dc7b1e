-- ===== src/Validate/Strings/References.antt =====
-- src/validate/strings.ts, how the value of a header refers to variables.
use barycenter.Prelude.{
  ℕ, ◌+◌, ◌≡◌, ◌≤◌, ◌⊎◌, refl, sym, ap, ◌∙◌, inl, inr, arith, true, false, some, [], ◌∷◌, ◌++◌,
  ◌==◌, Bool-cases, IsAll,
}
use barycenter.Prelude.Text.{Text, length}
use barycenter.Validate.Strings.Header.{
  is_word, word_run, open_brace, close_brace, dollar, close_reference, bare_reference, reference,
  allowed_variables, has_text,
}

-- A name of a variable, and what does not go on with it.
abbrev pub IsName : Text → Type 0
IsName name =
    IsAll (λ c. is_word c ≡ true) name
    × (1 ≤ length name)
    × (has_text name allowed_variables ≡ true)

abbrev pub IsOver : Text → Type 0
IsOver [] = Unit {0}
IsOver (c ∷ t) = is_word c ≡ false

-- Characters other than `$`, and references to the variables that are allowed, in braces or not.
pub data IsValue : Text → Type 0 where
  over : IsValue []
  plain : (c : ℕ) (t : Text) → (c == dollar) ≡ false → IsValue t → IsValue (c ∷ t)
  bare :
      (name rest : Text)
      → IsName name
      → IsOver rest
      → IsValue rest
      → IsValue (dollar ∷ (name ++ rest))
  braced :
      (name rest : Text)
      → IsName name
      → IsValue rest
      → IsValue (dollar ∷ open_brace ∷ (name ++ (close_brace ∷ rest)))

-- A run and what follows it are the text.
word_run_lem :
    (t : Text)
    → (t ≡ (word_run t).0 ++ (word_run t).1)
      × (IsAll (λ c. is_word c ≡ true) (word_run t).0 × IsOver (word_run t).1)
unfolding word_run
word_run_lem [] = (refl, (tt, tt))
word_run_lem (c ∷ t) = elim (Bool-cases (is_word c)) [
  | inl word ↦
      let (whole, (words, ends)) = word_run_lem t in
      rw word (ap (λ r. c ∷ r) whole, ((word, words), ends))
  | inr other ↦ rw other (refl, (tt, other))
]

word_run-append :
    (name rest : Text)
    → IsAll (λ c. is_word c ≡ true) name
    → IsOver rest
    → word_run (name ++ rest) ≡ (name, rest)
unfolding word_run
word_run-append [] [] h k = refl
word_run-append [] (c ∷ rest) h k = rw k refl
word_run-append (c ∷ name) rest h k = rw (h.0, word_run-append name rest h.1 k) refl

-- How a reference is written.
abbrev pub IsWritten : Text → Text → Text → Type 0
IsWritten t name rest =
    ((t ≡ name ++ rest) × IsOver rest) ⊎ (t ≡ open_brace ∷ (name ++ (close_brace ∷ rest)))

word_run-inverse :
    (t name rest : Text)
    → (word_run t).0 ≡ name
    → (word_run t).1 ≡ rest
    → (t ≡ name ++ rest) × (IsAll (λ c. is_word c ≡ true) name × IsOver rest)
word_run-inverse t name rest e f = rw (← e, ← f) (word_run_lem t)

close_reference_lem :
    (n s name rest : Text)
    → close_reference (n, s) ≡ some (name, rest)
    → (n ≡ name) × ((s ≡ close_brace ∷ rest) × (1 ≤ length name))
close_reference_lem n [] name rest e = absurd (ground arith)
close_reference_lem n (c ∷ s) name rest e = (ground arith, (ground arith, ground arith))

bare_reference_lem :
    (n s name rest : Text)
    → bare_reference (n, s) ≡ some (name, rest)
    → (n ≡ name) × ((s ≡ rest) × (1 ≤ length name))
bare_reference_lem [] s name rest e = absurd (ground arith)
bare_reference_lem (c ∷ n) s name rest e = (ground arith, (ground arith, ground arith))

pub reference_lem :
    (t name rest : Text)
    → reference t ≡ some (name, rest)
    → (IsAll (λ c. is_word c ≡ true) name × (1 ≤ length name)) × IsWritten t name rest
unfolding reference
reference_lem [] name rest e = absurd (ground arith)
reference_lem (c ∷ t) name rest e = elim (Bool-cases (c == open_brace)) [
  | inl brace ↦
      let here : reference (c ∷ t) ≡ close_reference (word_run t) = rw brace refl in
      let (closed, (left, long)) =
        close_reference_lem (word_run t).0 (word_run t).1 name rest (sym here ∙ e) in
      let (whole, (words, ends)) = word_run-inverse t name (close_brace ∷ rest) closed left in
      (
        (words, long),
        inr (ap (λ r. c ∷ r) whole ∙ ap (λ x. x ∷ (name ++ (close_brace ∷ rest))) (ground arith)),
      )
  | inr other ↦
      let here : reference (c ∷ t) ≡ bare_reference (word_run (c ∷ t)) = rw other refl in
      let (bared, (left, long)) =
        bare_reference_lem (word_run (c ∷ t)).0 (word_run (c ∷ t)).1 name rest (sym here ∙ e) in
      let (whole, (words, ends)) = word_run-inverse (c ∷ t) name rest bared left in
      ((words, long), inl (whole, ends))
]

pub reference-bare :
    (name rest : Text)
    → IsAll (λ c. is_word c ≡ true) name
    → 1 ≤ length name
    → IsOver rest
    → reference (name ++ rest) ≡ some (name, rest)
unfolding reference
reference-bare [] rest h long k = absurd (omega arith)
reference-bare (c ∷ name) rest h long k =
    rw (no_brace c h.0, word_run-append (c ∷ name) rest h k) refl
  where
    no_brace : (c : ℕ) → is_word c ≡ true → (c == open_brace) ≡ false
    no_brace c h = ground arith

pub reference-braced :
    (name rest : Text)
    → IsAll (λ c. is_word c ≡ true) name
    → 1 ≤ length name
    → reference (open_brace ∷ (name ++ (close_brace ∷ rest))) ≡ some (name, rest)
unfolding reference
reference-braced name rest h long =
    rw (word_run-append name (close_brace ∷ rest) h refl) (ground arith)

pub length-append : (s t : Text) → length (s ++ t) ≡ length s + length t
length-append [] t = omega arith
length-append (c ∷ s) t = omega (arith, length-append s t)

pub IsWritten-length : (t name rest : Text) → IsWritten t name rest → length rest ≤ length t
IsWritten-length t name rest (inl (e, k)) = omega (arith, ap length e, length-append name rest)
IsWritten-length t name rest (inr e) =
    omega (arith, ap length e, length-append name (close_brace ∷ rest))
