-- ===== src/Validate/Strings/Safe.antt =====
-- src/validate/strings.ts, `normalizeHost` and `parseHostPattern`: what an accepted host is made of.
use barycenter.Prelude.{
  ℕ, ◌≡◌, ◌≤◌, refl, sym, ap, ◌∙◌, ◌⊎◌, inl, inr, arith, Bool, true, false, not, ◌&&◌, ◌||◌, Option,
  none, some, List, [], ◌∷◌, ltb, ◌==◌, if◌then◌else◌, Bool-cases, IsAll,
}
use barycenter.Prelude.Text.{Text, every, starts_with, length, split, on_head, text_eq}
use barycenter.Validate.Ip.{dot}
use barycenter.Validate.Written.{split-cons}
use barycenter.Validate.Strings.{
  invalid_host, invalid_host_pattern, Checked, ok, err, is_ldh, is_label, star, check_ascii,
  looks_like_ipv4, HostPlatform, normalize_host, without_last_dot, is_raw_host, HostPattern, exact,
  wildcard, wildcard_of, as_exact, as_wildcard, count_of, parse_host_pattern,
}

-- Lower-case letters, digits, `-` and `.`: nothing that the engine's configuration reads as syntax.
abbrev pub IsHostText : Text → Type 0
IsHostText h =
    (1 ≤ length h)
    × (length h ≤ 253)
    × (starts_with (dot ∷ []) h ≡ false)
    × IsAll (λ c. (is_ldh c || (c == dot)) ≡ true) h

on_head-every :
    (x : ℕ) (p : Text) (ps : List Text)
    → every (λ l. every is_ldh l) (on_head x (p ∷ ps)) ≡ true
    → (is_ldh x ≡ true) × (every (λ l. every is_ldh l) (p ∷ ps) ≡ true)
on_head-every x p ps h = (ground arith, ground arith)

every-split :
    (t : Text)
    → every (λ l. every is_ldh l) (split dot t) ≡ true
    → IsAll (λ c. (is_ldh c || (c == dot)) ≡ true) t
unfolding split
every-split [] h = tt
every-split (x ∷ t) h = elim (Bool-cases (x == dot)) [
  | inl same ↦
      let here : split dot (x ∷ t) ≡ [] ∷ split dot t = rw same refl in
      (
        rw same (either_dot (is_ldh x)),
        every-split t (ap (λ l. every (λ l. every is_ldh l) l) (sym here) ∙ h),
      )
  | inr other ↦
      let (p, ps, e) = split-cons dot t in
      let here : split dot (x ∷ t) ≡ on_head x (p ∷ ps) = rw (other, e) refl in
      let (first, rest) =
        on_head-every x p ps (ap (λ l. every (λ l. every is_ldh l) l) (sym here) ∙ h) in
      (rw first refl, every-split t (ap (λ l. every (λ l. every is_ldh l) l) e ∙ rest))
]
  where
    either_dot : (b : Bool) → (b || true) ≡ true
    either_dot true = refl
    either_dot false = refl

is_label-every : (l : Text) → is_label l ≡ true → every is_ldh l ≡ true
is_label-every [] h = refl
is_label-every (c ∷ l) h = ground arith

labels-every : (ls : List Text) → every is_label ls ≡ true → every (λ l. every is_ldh l) ls ≡ true
labels-every [] h = refl
labels-every (l ∷ ls) h =
    let both = both_true (is_label l) (every is_label ls) h in
    rw (is_label-every l both.0, labels-every ls both.1) refl
  where
    both_true : (a b : Bool) → (a && b) ≡ true → (a ≡ true) × (b ≡ true)
    both_true a b h = (ground arith, ground arith)

no_dot_first : (t : Text) → every is_label (split dot t) ≡ true → starts_with (dot ∷ []) t ≡ false
unfolding split
no_dot_first [] h = refl
no_dot_first (x ∷ t) h = elim (Bool-cases (x == dot)) [
  | inl same ↦
      let here : split dot (x ∷ t) ≡ [] ∷ split dot t = rw same refl in
      absurd (empty_label (split dot t) (ap (λ l. every is_label l) (sym here) ∙ h))
  | inr other ↦ no_dot x other
]
  where
    empty_label : (ls : List Text) → every is_label ([] ∷ ls) ≡ true → ⊥
    empty_label ls h = ground arith

    no_dot : (x : ℕ) → (x == dot) ≡ false → ((x == dot) && true) ≡ false
    no_dot x h = ground arith

of_tests :
    (b c d e : Bool) (a h : Text)
    → (if b
        then err invalid_host
        else if c
        then err invalid_host
        else if d
        then err invalid_host
        else if not e
        then err invalid_host
        else ok a)
      ≡ ok h
    → (a ≡ h) × ((c ≡ false) × ((d ≡ false) × (e ≡ true)))
of_tests b c d e a h k = (ground arith, (ground arith, (ground arith, ground arith)))

check_ascii-IsHostText :
    (host h : Text) (ascii : Option Text) → check_ascii host ascii ≡ ok h → IsHostText h
check_ascii-IsHostText host h none e = absurd (ground arith)
check_ascii-IsHostText host h (some a) e =
    let (same, (some_text, (short, labels))) =
      of_tests (looks_like_ipv4 a && not (text_eq a host)) (length a == 0) (ltb 253 (length a))
        (every is_label (split dot a)) a h e in
    rw (← same) (
      long_enough (length a) some_text,
      short_enough (length a) short,
      no_dot_first a labels,
      every-split a (labels-every (split dot a) labels),
    )
  where
    long_enough : (n : ℕ) → (n == 0) ≡ false → 1 ≤ n
    long_enough n h = ground arith

    short_enough : (n : ℕ) → ltb 253 n ≡ false → n ≤ 253
    short_enough n h = ground arith

-- What a pattern is, as a text, and the host in it.
abbrev pub pattern_text : HostPattern → Text
pattern_text (exact h) = h
pattern_text (wildcard s) = star ∷ dot ∷ s

abbrev pub host_text : HostPattern → Text
host_text (exact h) = h
host_text (wildcard s) = s

module _ (p : HostPlatform) where
  normalize_host-IsHostText : (input h : Text) → normalize_host p input ≡ ok h → IsHostText h
  unfolding normalize_host
  normalize_host-IsHostText input h e =
      let host = without_last_dot (p.to_lower input) in
      check_ascii-IsHostText host h (p.hostname host) (
        of_guards (length input == 0) (every is_raw_host input) (length host == 0)
          (check_ascii host (p.hostname host)) h e)
    where
      of_guards :
          (b c d : Bool) (r : Checked Text) (h : Text)
          → (if b
              then err invalid_host
              else if not c
              then err invalid_host
              else if d
              then err invalid_host
              else r)
            ≡ ok h
          → r ≡ ok h
      of_guards b c d r h k = ground arith

  wildcard_of-IsHostText :
      (input : Text) (pattern : HostPattern)
      → wildcard_of p input ≡ ok pattern
      → (s : Text) × (pattern ≡ wildcard s) × IsHostText s
  wildcard_of-IsHostText [] pattern e = absurd (ground arith)
  wildcard_of-IsHostText (a ∷ []) pattern e = absurd (ground arith)
  wildcard_of-IsHostText (a ∷ b ∷ suffix) pattern e =
      let (s, host, same) = as_wildcard_lem (normalize_host p suffix) pattern (
        of_guards ((a == star) && (b == dot)) (length suffix == 0)
          (as_wildcard (normalize_host p suffix)) pattern e) in
      (s, same, normalize_host-IsHostText suffix s host)
    where
      of_guards :
          (b c : Bool) (r : Checked HostPattern) (h : HostPattern)
          → (if not b then err invalid_host_pattern else if c then err invalid_host_pattern else r)
            ≡ ok h
          → r ≡ ok h
      of_guards b c r h k = ground arith

      as_wildcard_lem :
          (r : Checked Text) (h : HostPattern)
          → as_wildcard r ≡ ok h
          → (s : Text) × (r ≡ ok s) × (h ≡ wildcard s)
      as_wildcard_lem (ok s) h k = (s, refl, ground arith)
      as_wildcard_lem (err x) h k = absurd (ground arith)

  as_exact_lem :
      (r : Checked Text) (h : HostPattern)
      → as_exact r ≡ ok h
      → (s : Text) × (r ≡ ok s) × (h ≡ exact s)
  as_exact_lem (ok s) h k = (s, refl, ground arith)
  as_exact_lem (err x) h k = absurd (ground arith)

  -- The host in a pattern that `parseHostPattern` accepts, whatever the input and the platform's URL
  -- parser, has 1 to 253 characters, all of them lower-case letters, digits, `-` or
  -- `.`, and does not start with a dot.
  pub parse_host_pattern-IsHostText :
      (input : Text) (pattern : HostPattern)
      → parse_host_pattern p input ≡ ok pattern
      → IsHostText (host_text pattern)
  unfolding parse_host_pattern
  parse_host_pattern-IsHostText input pattern e =
      elim (of_guards (length input == 0) (count_of star input == 0) (ltb 1 (count_of star input))
        (as_exact (normalize_host p input)) (wildcard_of p input) pattern e) [
          | inl no_star ↦
              let (s, host, same) = as_exact_lem (normalize_host p input) pattern no_star in
              rw same (normalize_host-IsHostText input s host)
          | inr one_star ↦
              let (s, same, text) = wildcard_of-IsHostText input pattern one_star in rw same text
        ]
    where
      of_guards :
          (b c d : Bool) (r s : Checked HostPattern) (h : HostPattern)
          → (if b
              then err invalid_host_pattern
              else if c
              then r
              else if d
              then err invalid_host_pattern
              else s)
            ≡ ok h
          → (r ≡ ok h) ⊎ (s ≡ ok h)
      of_guards true c d r s h k = absurd (ground arith)
      of_guards false true d r s h k = inl k
      of_guards false false true r s h k = absurd (ground arith)
      of_guards false false false r s h k = inr k
