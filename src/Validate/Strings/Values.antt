-- ===== src/Validate/Strings/Values.antt =====
-- src/validate/strings.ts, `validateHeaderValue`: whether its loop ends, and what it accepts.
use barycenter.Prelude.{
  ℕ, zero, suc, ◌≡◌, ◌≢◌, ◌≤◌, ◌↔◌, refl, sym, ◌∙◌, inl, inr, arith, true, false, none, some, [],
  ◌∷◌, ◌==◌, Bool-cases, Option-cases, IsAll,
}
use barycenter.Prelude.Text.{Text, length}
use barycenter.Validate.Strings.{ok}
use barycenter.Validate.Strings.Header.{
  is_word, close_brace, dollar, reference, allowed_variables, has_text, is_control, has_control,
  accepted, rejected, out_of_fuel, scan_value, validate_header_value,
}
use barycenter.Validate.Strings.References.{
  IsValue, over, plain, bare, braced, IsWritten, reference_lem, reference-bare, reference-braced,
  length-append, IsWritten-length,
}

of_reference :
    (c : ℕ) (t name rest : Text)
    → c ≡ dollar
    → has_text name allowed_variables ≡ true
    → IsValue rest
    → (IsAll (λ c. is_word c ≡ true) name × (1 ≤ length name)) × IsWritten t name rest
    → IsValue (c ∷ t)
of_reference c t name rest e known v ((words, long), inl (whole, ends)) =
    rw (e, whole) (bare name rest (words, long, known) ends v)
of_reference c t name rest e known v ((words, long), inr whole) =
    rw (e, whole) (braced name rest (words, long, known) v)

rejected-accepted : rejected ≢ accepted
rejected-accepted = ground arith

is_dollar : (c : ℕ) → (c == dollar) ≡ true → c ≡ dollar
is_dollar c h = ground arith

-- What the loop finds.
scan_value-IsValue : (fuel : ℕ) (t : Text) → scan_value fuel t ≡ accepted → IsValue t
unfolding scan_value
scan_value-IsValue fuel [] e = over
scan_value-IsValue zero (c ∷ t) e = absurd (ground arith)
scan_value-IsValue (suc fuel) (c ∷ t) e = elim (Bool-cases (c == dollar)) [
  | inr other ↦
      let here : scan_value (suc fuel) (c ∷ t) ≡ scan_value fuel t = rw other refl in
      plain c t other (scan_value-IsValue fuel t (sym here ∙ e))
  | inl sign ↦ elim (Option-cases (reference t)) [
    | inl bad ↦
        let here : scan_value (suc fuel) (c ∷ t) ≡ rejected = rw (sign, bad) refl in
        absurd (rejected-accepted (sym here ∙ e))
    | inr ((name, rest), good) ↦ elim (Bool-cases (has_text name allowed_variables)) [
      | inr unknown ↦
          let here : scan_value (suc fuel) (c ∷ t) ≡ rejected = rw (sign, good, unknown) refl in
          absurd (rejected-accepted (sym here ∙ e))
      | inl known ↦
          let here : scan_value (suc fuel) (c ∷ t) ≡ scan_value fuel rest =
            rw (sign, good, known) refl in
          let value = scan_value-IsValue fuel rest (sym here ∙ e) in
          of_reference c t name rest (is_dollar c sign) known value (reference_lem t name rest good)
    ]
  ]
]

IsValue-scan_value :
    (fuel : ℕ) (t : Text) → IsValue t → length t ≤ fuel → scan_value fuel t ≡ accepted
unfolding scan_value
IsValue-scan_value fuel _ over h = refl
IsValue-scan_value zero _ (plain c t other v) h = absurd (omega arith)
IsValue-scan_value (suc fuel) _ (plain c t other v) h =
    rw other (IsValue-scan_value fuel t v (omega arith))
IsValue-scan_value zero _ (bare name rest n k v) h = absurd (omega arith)
IsValue-scan_value (suc fuel) _ (bare name rest n k v) h =
    rw (reference-bare name rest n.0 n.1 k, n.2)
      (IsValue-scan_value fuel rest v (omega (arith, length-append name rest)))
IsValue-scan_value zero _ (braced name rest n v) h = absurd (omega arith)
IsValue-scan_value (suc fuel) _ (braced name rest n v) h =
    rw (reference-braced name rest n.0 n.1, n.2)
      (IsValue-scan_value fuel rest v (omega (arith, length-append name (close_brace ∷ rest))))

scan_value-ends : (fuel : ℕ) (t : Text) → length t ≤ fuel → scan_value fuel t ≢ out_of_fuel
unfolding scan_value
scan_value-ends fuel [] h = ground arith
scan_value-ends zero (c ∷ t) h = absurd (omega arith)
scan_value-ends (suc fuel) (c ∷ t) h = elim (Bool-cases (c == dollar)) [
  | inr other ↦ rw other (scan_value-ends fuel t (omega arith))
  | inl sign ↦ elim (Option-cases (reference t)) [
    | inl bad ↦ rw (sign, bad) (ground arith)
    | inr ((name, rest), good) ↦ elim (Bool-cases (has_text name allowed_variables)) [
      | inr unknown ↦ rw (sign, good, unknown) (ground arith)
      | inl known ↦
          let shorter = IsWritten-length t name rest (reference_lem t name rest good).1 in
          rw (sign, good, known) (scan_value-ends fuel rest (omega arith))
    ]
  ]
]

-- The loop over a header's value ends on every value: `validateHeaderValue` returns an answer.
pub validate_header_value-ends : (input : Text) → validate_header_value input ≢ none
unfolding validate_header_value
validate_header_value-ends input = ground (arith, scan_value-ends (length input) input)

has_control-IsAll : (t : Text) → (has_control t ≡ false) ↔ IsAll (λ c. is_control c ≡ false) t
has_control-IsAll [] = (λ h. tt, λ h. refl)
has_control-IsAll (c ∷ t) = (
  λ h. (ground arith, (has_control-IsAll t).0 (ground arith)),
  λ h. let rest = (has_control-IsAll t).1 h.1 in rw (h.0, rest) refl,
)

-- `validateHeaderValue` accepts a value, unchanged, exactly if it has no control character and is
-- made of characters other than `$` and of references, in braces or not, to variables of the
-- allowed ones.
pub validate_header_value_iff :
    (input : Text)
    → (validate_header_value input ≡ some (ok input))
      ↔ (IsAll (λ c. is_control c ≡ false) input × IsValue input)
unfolding validate_header_value
validate_header_value_iff input = (
  λ e. (
    (has_control-IsAll input).0 (ground arith),
    scan_value-IsValue (length input) input (ground arith),
  ),
  λ h.
      let free = (has_control-IsAll input).1 h.0 in
      let scanned = IsValue-scan_value (length input) input h.1 (omega arith) in
      rw (free, scanned) refl,
)
