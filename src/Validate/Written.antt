-- ===== src/Validate/Written.antt =====
-- src/validate/ip.ts, the way an IPv4 address is written: four decimal numbers with dots between.
use mathlib.Core.Path.{subst}
use barycenter.Prelude.{
  Bool-cases, ℕ, ◌≡◌, refl, sym, ap, ◌∙◌, ◌≤◌, ◌<◌, ◌↔◌, ◌+◌, ◌*◌, ◌/◌, ◌%◌, ◌^◌, true, false, ◌||◌,
  arith, some, ltb, ◌==◌, inl, inr, if◌then◌else◌, List, [], ◌∷◌, ◌++◌,
}
use barycenter.Prelude.Text.{Text, on_head, every, length, decimal_value, includes, split}
use barycenter.Validate.Ip.{v4, dot, percent, is_octet, is_ipv4, ip_version}
use barycenter.Validate.Cidr.{ip_bits}

-- The decimal digits of a number below a thousand.
abbrev pub decimal : ℕ → Text
decimal n =
    if ltb n 10
    then (n + 48) ∷ []
    else if ltb n 100
    then (n / 10 + 48) ∷ (n % 10 + 48) ∷ []
    else (n / 100 + 48) ∷ (n / 10 % 10 + 48) ∷ (n % 10 + 48) ∷ []

abbrev pub dotted : ℕ → ℕ → ℕ → ℕ → Text
dotted a b c d = decimal a ++ (dot ∷ (decimal b ++ (dot ∷ (decimal c ++ (dot ∷ decimal d)))))

includes-append : (c : ℕ) (s t : Text) → includes c (s ++ t) ≡ (includes c s || includes c t)
includes-append c [] t = refl
includes-append c (x ∷ s) t = ground (arith, includes-append c s t)

split-append : (c : ℕ) (s t : Text) → includes c s ≡ false → split c (s ++ (c ∷ t)) ≡ s ∷ split c t
unfolding split
split-append c [] t e = ground arith
split-append c (x ∷ s) t e = let rest = split-append c s t (ground arith) in ground arith

split-whole : (c : ℕ) (s : Text) → includes c s ≡ false → split c s ≡ s ∷ []
unfolding split
split-whole c [] e = refl
split-whole c (x ∷ s) e = let rest = split-whole c s (ground arith) in ground arith

includes-decimal : (c n : ℕ) → c < 48 → includes c (decimal n) ≡ false
includes-decimal c n small = ground arith

pub decimal_value-decimal : (n : ℕ) → n < 1000 → decimal_value (decimal n) ≡ n
decimal_value-decimal n small = ground arith

is_octet-decimal : (n : ℕ) → n ≤ 255 → is_octet (decimal n) ≡ true
is_octet-decimal n small = ground arith

pub split-dotted :
    (a b c d : ℕ) → split dot (dotted a b c d) ≡ decimal a ∷ decimal b ∷ decimal c ∷ decimal d ∷ []
split-dotted a b c d =
    split-append dot (decimal a) _ (includes-decimal dot a (omega arith))
    ∙ ap (λ r. decimal a ∷ r)
        (split-append dot (decimal b) _ (includes-decimal dot b (omega arith))
          ∙ ap (λ r. decimal b ∷ r)
              (split-append dot (decimal c) _ (includes-decimal dot c (omega arith))
                ∙ ap (λ r. decimal c ∷ r)
                    (split-whole dot (decimal d) (includes-decimal dot d (omega arith)))))

-- The texts with the character between them.
join : ℕ → List Text → Text
join c [] = []
join c (p ∷ []) = p
join c (p ∷ q ∷ ps) = p ++ (c ∷ join c (q ∷ ps))

pub split-cons : (c : ℕ) (t : Text) → (p : Text) × (ps : List Text) × (split c t ≡ p ∷ ps)
unfolding split
split-cons c [] = ([], [], refl)
split-cons c (x ∷ t) =
    let (p, ps, e) = split-cons c t in
    elim (Bool-cases (x == c)) [
      | inl same ↦ ([], split c t, rw same refl)
      | inr other ↦ (x ∷ p, ps, rw (other, e) refl)
    ]

join-step :
    (c x : ℕ) (p : Text) (ps : List Text)
    → join c (if x == c then [] ∷ p ∷ ps else on_head x (p ∷ ps)) ≡ x ∷ join c (p ∷ ps)
unfolding join
join-step c x p [] = ground arith
join-step c x p (q ∷ ps) = ground arith

join-split : (c : ℕ) (t : Text) → join c (split c t) ≡ t
unfolding join split
join-split c [] = refl
join-split c (x ∷ t) =
    let (p, ps, e) = split-cons c t in
    ap (λ r. join c (if x == c then [] ∷ r else on_head x r)) e
    ∙ (join-step c x p ps ∙ ap (λ r. x ∷ r) (ap (λ r. join c r) (sym e) ∙ join-split c t))

octet-decimal : (t : Text) → is_octet t ≡ true → t ≡ decimal (decimal_value t)
octet-decimal [] e = ground arith
octet-decimal (x ∷ []) e = ground arith
octet-decimal (x ∷ y ∷ []) e = ground arith
octet-decimal (x ∷ y ∷ z ∷ []) e = ground arith
octet-decimal (x ∷ y ∷ z ∷ w ∷ t) e = ground arith

pub includes-dotted : (k a b c d : ℕ) → k < dot → includes k (dotted a b c d) ≡ false
includes-dotted k a b c d small =
    rw
      (
        includes-append k (decimal a)
            (dot ∷ (decimal b ++ (dot ∷ (decimal c ++ (dot ∷ decimal d))))),
        includes-append k (decimal b) (dot ∷ (decimal c ++ (dot ∷ decimal d))),
        includes-append k (decimal c) (dot ∷ decimal d),
        includes-decimal k a (omega arith),
        includes-decimal k b (omega arith),
        includes-decimal k c (omega arith),
        includes-decimal k d (omega arith),
      )
      (ground arith)

pub is_ipv4-dotted :
    (a b c d : ℕ) → a ≤ 255 → b ≤ 255 → c ≤ 255 → d ≤ 255 → is_ipv4 (dotted a b c d) ≡ true
unfolding is_ipv4
is_ipv4-dotted a b c d ha hb hc hd =
    rw
      (
        split-dotted a b c d,
        is_octet-decimal a ha,
        is_octet-decimal b hb,
        is_octet-decimal c hc,
        is_octet-decimal d hd,
      )
      refl

abbrev pub IsDotted : Text → Type 0
IsDotted t =
    (a : ℕ) × (b : ℕ) × (c : ℕ) × (d : ℕ) × (a ≤ 255)
    × (b ≤ 255)
    × (c ≤ 255)
    × (d ≤ 255)
    × (t ≡ dotted a b c d)

of_octets :
    (p q r s : Text)
    → every is_octet (p ∷ q ∷ r ∷ s ∷ []) ≡ true
    → IsDotted (join dot (p ∷ q ∷ r ∷ s ∷ []))
unfolding join IsDotted
of_octets p q r s h = (
  decimal_value p,
  decimal_value q,
  decimal_value r,
  decimal_value s,
  ground arith,
  ground arith,
  ground arith,
  ground arith,
  rw
      (
        ← octet-decimal p (ground arith),
        ← octet-decimal q (ground arith),
        ← octet-decimal r (ground arith),
        ← octet-decimal s (ground arith),
      )
      refl,
)

of_parts :
    (ps : List Text) → (length ps == 4) ≡ true → every is_octet ps ≡ true → IsDotted (join dot ps)
of_parts (p ∷ q ∷ r ∷ s ∷ []) n h = of_octets p q r s h
of_parts [] n h = absurd (ground arith)
of_parts (p ∷ []) n h = absurd (ground arith)
of_parts (p ∷ q ∷ []) n h = absurd (ground arith)
of_parts (p ∷ q ∷ r ∷ []) n h = absurd (ground arith)
of_parts (p ∷ q ∷ r ∷ s ∷ t ∷ ps) n h = absurd (ground arith)

of_ipv4 : (t : Text) → is_ipv4 t ≡ true → IsDotted t
unfolding is_ipv4
of_ipv4 t h =
    subst IsDotted (join-split dot t) (of_parts (split dot t) (ground arith) (ground arith))

-- A text is an IPv4 address exactly if it is four numbers of at most 255, written in decimal without
-- leading zeros, with dots between.
pub is_ipv4_iff : (t : Text) → (is_ipv4 t ≡ true) ↔ IsDotted t
unfolding IsDotted
is_ipv4_iff t =
    (of_ipv4 t, λ (a, b, c, d, ha, hb, hc, hd, e). rw (e, is_ipv4-dotted a b c d ha hb hc hd) refl)

ip_version-v4 : (t : Text) → is_ipv4 t ≡ true → ip_version t ≡ some v4
unfolding ip_version
ip_version-v4 t h = rw h refl

-- Four numbers of at most 255, written with dots, are read as an IPv4 address and as the number whose
-- bytes they are, the first one highest.
pub ip_bits-dotted :
    (a b c d : ℕ)
    → a ≤ 255
    → b ≤ 255
    → c ≤ 255
    → d ≤ 255
    → (ip_version (dotted a b c d) ≡ some v4)
      × (ip_bits (dotted a b c d) ≡ some (v4, ((a * 2 ^ 8 + b) * 2 ^ 8 + c) * 2 ^ 8 + d))
unfolding ip_bits
ip_bits-dotted a b c d ha hb hc hd =
    let version : ip_version (dotted a b c d) ≡ some v4 =
      ip_version-v4 (dotted a b c d) (is_ipv4-dotted a b c d ha hb hc hd) in
    (
      version,
      rw (includes-dotted percent a b c d (omega arith), version, split-dotted a b c d)
          (ap (λ n. some (v4, n))
            (omega (
              arith,
              decimal_value-decimal a (omega arith),
              decimal_value-decimal b (omega arith),
              decimal_value-decimal c (omega arith),
              decimal_value-decimal d (omega arith),
            ))),
    )
