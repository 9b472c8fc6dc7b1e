-- ===== src/Validate/Loopback.antt =====
-- src/validate/sockets.ts, `isLoopbackBind` on IPv4 addresses.
use barycenter.Prelude.{
  ℕ, ◌≡◌, refl, ap, ◌∙◌, ◌≤◌, ◌↔◌, ◌+◌, ◌/◌, ◌%◌, inl, inr, true, false, arith, Option, none, some,
  [], ◌∷◌, ◌++◌, ltb, ◌==◌, Bool-cases,
}
use barycenter.Prelude.Text.{Text, starts_with, text_eq}
use barycenter.Validate.Ip.{v4, colon, dot, ip_version}
use barycenter.Validate.Written.{dotted, decimal, ip_bits-dotted}
use barycenter.Validate.Sockets.{
  v4_mapped, any_v4, loopback_v4, address_of, is_loopback, normalize_bind, is_loopback_bind,
}

v4_mapped-none : (x : ℕ) (t : Text) → (x == colon) ≡ false → v4_mapped (x ∷ t) ≡ none
unfolding v4_mapped
v4_mapped-none x [] h = refl
v4_mapped-none x (a ∷ []) h = refl
v4_mapped-none x (a ∷ b ∷ []) h = refl
v4_mapped-none x (a ∷ b ∷ c ∷ []) h = refl
v4_mapped-none x (a ∷ b ∷ c ∷ d ∷ []) h = refl
v4_mapped-none x (a ∷ b ∷ c ∷ d ∷ e ∷ []) h = refl
v4_mapped-none x (a ∷ b ∷ c ∷ d ∷ e ∷ f ∷ t) h = rw h refl

-- The first number decides.
loopback-dotted :
    (a b c d : ℕ) → a ≤ 255 → (starts_with loopback_v4 (dotted a b c d) ≡ true) ↔ (a ≡ 127)
loopback-dotted a b c d ha = ground arith

any-dotted : (a b c d : ℕ) → a ≤ 255 → text_eq (dotted a b c d) any_v4 ≡ true → a ≡ 0
any-dotted a b c d ha = ground arith

decimal-cons :
    (a : ℕ) (r : Text)
    → a ≤ 255
    → (x : ℕ) × (t : Text) × ((x == colon) ≡ false) × (decimal a ++ r ≡ x ∷ t)
decimal-cons a r small = elim (Bool-cases (ltb a 10)) [
  | inl one ↦ (a + 48, r, ground arith, rw one refl)
  | inr more ↦ elim (Bool-cases (ltb a 100)) [
    | inl two ↦ (a / 10 + 48, (a % 10 + 48) ∷ r, ground arith, rw (more, two) refl)
    | inr three ↦
        (a / 100 + 48, (a / 10 % 10 + 48) ∷ (a % 10 + 48) ∷ r, ground arith, rw (more, three) refl)
  ]
]

module _ (canonical : Text → Option Text) where
  normalize_unmapped :
      (s : Text) (x : ℕ) (t : Text)
      → (x == colon) ≡ false
      → s ≡ x ∷ t
      → normalize_bind canonical s ≡ address_of canonical s (ip_version s)
  unfolding normalize_bind
  normalize_unmapped s x t h e = rw (e, v4_mapped-none x t h) refl

  normalize-dotted :
      (a b c d : ℕ)
      → a ≤ 255
      → b ≤ 255
      → c ≤ 255
      → d ≤ 255
      → normalize_bind canonical (dotted a b c d) ≡ address_of canonical (dotted a b c d) (some v4)
  normalize-dotted a b c d ha hb hc hd =
      let (x, t, h, e) =
        decimal-cons a (dot ∷ (decimal b ++ (dot ∷ (decimal c ++ (dot ∷ decimal d))))) ha in
      normalize_unmapped (dotted a b c d) x t h e
      ∙ ap (λ v. address_of canonical (dotted a b c d) v) (ip_bits-dotted a b c d ha hb hc hd).0

  -- An IPv4 address in four numbers of at most 255 is a loopback bind exactly if the first one
  -- is 127, whatever the URL parser does.
  pub is_loopback_bind_iff :
      (a b c d : ℕ)
      → a ≤ 255
      → b ≤ 255
      → c ≤ 255
      → d ≤ 255
      → (is_loopback_bind canonical (dotted a b c d) ≡ true) ↔ (a ≡ 127)
  unfolding is_loopback_bind
  is_loopback_bind_iff a b c d ha hb hc hd =
      rw (normalize-dotted a b c d ha hb hc hd)
        (by_address (dotted a b c d) a (any-dotted a b c d ha) (loopback-dotted a b c d ha))
    where
      by_address :
          (t : Text) (a : ℕ)
          → (text_eq t any_v4 ≡ true → a ≡ 0)
          → (starts_with loopback_v4 t ≡ true) ↔ (a ≡ 127)
          → (is_loopback canonical (address_of canonical t (some v4)) ≡ true) ↔ (a ≡ 127)
      by_address t a any first = elim (Bool-cases (text_eq t any_v4)) [
        | inl wild ↦ rw wild (λ h. absurd (ground arith), λ h. absurd (omega (arith, any wild)))
        | inr other ↦ rw other first
      ]
