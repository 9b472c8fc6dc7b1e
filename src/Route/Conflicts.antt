-- ===== src/Route/Conflicts.antt =====
-- src/route/compile.ts, `patternsConflict` against the hosts that patterns match.
use barycenter.Prelude.{
  ◌+◌, ◌≡◌, ◌≤◌, ◌↔◌, refl, sym, ap, ◌∙◌, inl, inr, arith, Bool, true, false, Option, none, some,
  [], ◌∷◌, ◌++◌, Bool-cases, Option-cases,
}
use barycenter.Prelude.Text.{Text, text_eq, length, includes, starts_with}
use barycenter.Validate.Ip.{dot}
use barycenter.Validate.Contention.{text_eq_iff}
use barycenter.Validate.Strings.{HostPattern, exact, wildcard, before_end, has_one_label}
use barycenter.Validate.Strings.Safe.{host_text}
use barycenter.Route.{wildcard_takes, patterns_conflict}

length-append : (s t : Text) → length (s ++ t) ≡ length s + length t
length-append [] t = omega arith
length-append (c ∷ s) t = omega (arith, length-append s t)

before_end_nil : (end front : Text) → before_end end [] ≡ some front → [] ≡ front ++ end
unfolding before_end
before_end_nil [] [] h = refl
before_end_nil [] (x ∷ front) h = absurd (ground arith)
before_end_nil (c ∷ end) front h = absurd (ground arith)

before_end_lem : (end t front : Text) → before_end end t ≡ some front → t ≡ front ++ end
unfolding before_end
before_end_lem end [] front h = before_end_nil end front h
before_end_lem end (x ∷ t) front h = elim (Bool-cases (text_eq (x ∷ t) end)) [
  | inl whole ↦
      let here : before_end end (x ∷ t) ≡ some [] = rw whole refl in
      let nothing : [] ≡ front = some_injective [] front (sym here ∙ h) in
      rw (← nothing) ((text_eq_iff (x ∷ t) end).0 whole)
  | inr part ↦ elim (Option-cases (before_end end t)) [
    | inl fails ↦
        let here : before_end end (x ∷ t) ≡ none = rw (part, fails) refl in
        absurd (none_some front (sym here ∙ h))
    | inr (rest, good) ↦
        let here : before_end end (x ∷ t) ≡ some (x ∷ rest) = rw (part, good) refl in
        rw (← some_injective (x ∷ rest) front (sym here ∙ h))
          (ap (λ r. x ∷ r) (before_end_lem end t rest good))
  ]
]
  where
    some_injective : (s t : Text) → some s ≡ some t → s ≡ t
    some_injective s t h = ground arith

    none_some : (t : Text) → ◌≡◌ {A = Option Text} none (some t) → ⊥
    none_some t h = ground arith

before_end-append : (end front : Text) → before_end end (front ++ end) ≡ some front
unfolding before_end
before_end-append [] [] = refl
before_end-append (c ∷ end) [] = rw ((text_eq_iff (c ∷ end) (c ∷ end)).1 refl) refl
before_end-append end (x ∷ front) =
    rw (longer (text_eq (x ∷ (front ++ end)) end) refl, before_end-append end front) refl
  where
    longer :
        (b : Bool) → text_eq (x ∷ (front ++ end)) end ≡ b → text_eq (x ∷ (front ++ end)) end ≡ false
    longer false e = e
    longer true e = absurd (
        omega
          (arith, ap length ((text_eq_iff (x ∷ (front ++ end)) end).0 e), length-append front end))

-- The hosts that the engine gives to a pattern: a wildcard takes one label, not empty, before its
-- suffix.
abbrev pub Matches : HostPattern → Text → Type 0
Matches (exact h) host = host ≡ h
Matches (wildcard s) host =
    (label : Text) × (1 ≤ length label) × (includes dot label ≡ false) × (host ≡ label ++ (dot ∷ s))

wildcard_takes_iff :
    (s h : Text)
    → starts_with (dot ∷ []) h ≡ false
    → (wildcard_takes s h ≡ true) ↔ Matches (wildcard s) h
wildcard_takes_iff s h proper = (
  λ e. elim (Option-cases (before_end (dot ∷ s) h)) [
    | inl fails ↦ absurd (no_label (before_end (dot ∷ s) h) fails e)
    | inr (front, good) ↦
        let whole = before_end_lem (dot ∷ s) h front good in
        (front, not_empty front whole, one_label (before_end (dot ∷ s) h) front good e, whole)
  ],
  λ (label, long, one, whole). rw (whole, before_end-append (dot ∷ s) label, one) refl,
)
  where
    no_label : (o : Option Text) → o ≡ none → has_one_label o ≡ true → ⊥
    no_label none e k = ground arith
    no_label (some front) e k = ground arith

    one_label :
        (o : Option Text) (front : Text)
        → o ≡ some front
        → has_one_label o ≡ true
        → includes dot front ≡ false
    one_label none front e k = absurd (ground arith)
    one_label (some f) front e k = ground arith

    not_empty : (front : Text) → h ≡ front ++ (dot ∷ s) → 1 ≤ length front
    not_empty [] e = absurd (starts (ap (λ t. starts_with (dot ∷ []) t) e ∙ refl))
      where
        starts : starts_with (dot ∷ []) h ≡ true → ⊥
        starts k = ground arith
    not_empty (c ∷ front) e = omega arith

-- What follows the first dot.
first_dot :
    (f g s t : Text)
    → includes dot f ≡ false
    → includes dot g ≡ false
    → f ++ (dot ∷ s) ≡ g ++ (dot ∷ t)
    → s ≡ t
first_dot [] [] s t h k e = ground arith
first_dot [] (y ∷ g) s t h k e = absurd (ground arith)
first_dot (x ∷ f) [] s t h k e = absurd (ground arith)
first_dot (x ∷ f) (y ∷ g) s t h k e = first_dot f g s t (ground arith) (ground arith) (ground arith)

-- Two patterns conflict exactly if some host matches both, provided that their texts do not start
-- with a dot, which those of accepted patterns do not.
pub patterns_conflict_iff :
    (p q : HostPattern)
    → starts_with (dot ∷ []) (host_text p) ≡ false
    → starts_with (dot ∷ []) (host_text q) ≡ false
    → (patterns_conflict p q ≡ true) ↔ ((host : Text) × Matches p host × Matches q host)
unfolding patterns_conflict
patterns_conflict_iff (exact g) (exact h) _ _ =
    (λ e. (g, refl, (text_eq_iff g h).0 e), λ (host, m, n). (text_eq_iff g h).1 (sym m ∙ n))
patterns_conflict_iff (wildcard s) (wildcard t) _ _ = (
  λ e.
      let same = (text_eq_iff s t).0 e in
      (
        97 ∷ dot ∷ s,
        (97 ∷ [], omega arith, refl, refl),
        (97 ∷ [], omega arith, refl, ap (λ r. 97 ∷ dot ∷ r) same),
      ),
  λ (host, (f, _, one, e), (g, _, other, k)).
      (text_eq_iff s t).1 (first_dot f g s t one other (sym e ∙ k)),
)
patterns_conflict_iff (exact h) (wildcard s) proper _ = (
  λ e. (h, refl, (wildcard_takes_iff s h proper).0 e),
  λ (host, same, (f, long, one, e)). (wildcard_takes_iff s h proper).1 (f, long, one, sym same ∙ e),
)
patterns_conflict_iff (wildcard s) (exact h) _ proper = (
  λ e. (h, (wildcard_takes_iff s h proper).0 e, refl),
  λ (host, (f, long, one, e), same). (wildcard_takes_iff s h proper).1 (f, long, one, sym same ∙ e),
)
