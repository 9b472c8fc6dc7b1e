-- ===== src/Validate/Cover.antt =====
-- src/validate/ip.ts, `cidrCovers`: one block covers another if and only if all addresses of the
-- second are addresses of the first.
use mathlib.Core.Path.{subst}
use native.Mathlib.Nat.{mod-lt, mul-div_cancel}
use barycenter.Prelude.{
  ℕ, ◌≡◌, refl, sym, ap, ◌∙◌, ◌≤◌, ◌<◌, ◌↔◌, ◌-◌, ◌*◌, ◌/◌, ◌%◌, ◌^◌, true, ◌&&◌, arith, Option,
  none, some, leb, ◌==◌, inl, inr, Option-cases,
}
use barycenter.Prelude.Text.{Text}
use barycenter.Validate.Ip.{
  Version, v4, v6, version_eq, width_of, ip_version, cidr_version, with_prefix, before_slash,
  after_slash,
}
use barycenter.Validate.Cidr.{
  Block, masked, prefix_length, block_of, parse_if, parse_block, ip_bits, covers, cidr_covers,
}
use barycenter.Validate.Prefixes.{pow_positive, Includes, test_iff}

-- The first `len` bits of an address are the block's.
abbrev pub IsIn : Block → ℕ → Type 0
IsIn b x = x / 2 ^ (width_of b.version - b.len) ≡ b.net / 2 ^ (width_of b.version - b.len)

-- What a block that was read looks like: a prefix and then zeros.
record IsRead (b : Block) : Type 0 where
  pub fits : b.len ≤ width_of b.version
  pub prefix : ℕ
  pub small : prefix < 2 ^ b.len
  pub zeros : b.net ≡ prefix * 2 ^ (width_of b.version - b.len)

ip_bits-version :
    (addr : Text) (v : Version) (n : ℕ) → ip_bits addr ≡ some (v, n) → ip_version addr ≡ some v
unfolding ip_bits
ip_bits-version addr v n e = elim (Option-cases (ip_version addr)) [
  | inl unknown ↦ ground arith
  | inr (v4, known) ↦ ground arith
  | inr (v6, known) ↦ ground arith
]

prefix-fits :
    (v u : Version) (prefix : Option Text)
    → with_prefix (some v) prefix ≡ some u
    → prefix_length v prefix ≤ width_of v
prefix-fits v u none e = omega arith
prefix-fits v u (some t) e = ground arith

-- A text with a version has no zone and a prefix that fits.
cidr_version-prefix :
    (s : Text) (u : Version)
    → cidr_version s ≡ some u
    → with_prefix (ip_version (before_slash s)) (after_slash s) ≡ some u
unfolding cidr_version
cidr_version-prefix s u e = ground arith

abbrev IsReadIf : Option Block → Type 0
IsReadIf none = Unit {0}
IsReadIf (some b) = IsRead b

block-IsRead :
    (v : Version) (prefix : Option Text) (n : ℕ) (b : Block)
    → prefix_length v prefix ≤ width_of v
    → block_of prefix (some (v, n)) ≡ some b
    → IsRead b
block-IsRead v prefix n b fits e = subst IsReadIf e (record {
  fits = fits;
  prefix = n / 2 ^ (width_of v - prefix_length v prefix) % 2 ^ prefix_length v prefix;
  small = mod-lt _ (pow_positive (prefix_length v prefix));
  zeros = refl;
})

parse_block-IsRead : (s : Text) (b : Block) → parse_block s ≡ some b → IsRead b
unfolding parse_block
parse_block-IsRead s b e = elim (Option-cases (cidr_version s)) [
  | inl bad ↦ ground arith
  | inr (u, good) ↦ elim (Option-cases (ip_bits (before_slash s))) [
    | inl bad ↦ ground arith
    | inr ((v, n), bits) ↦
        block-IsRead v (after_slash s) n b
          (prefix-fits v u (after_slash s) (
            ap (λ o. with_prefix o (after_slash s))
              (sym (ip_bits-version (before_slash s) v n bits))
            ∙ cidr_version-prefix s u good))
          (ap (λ o. block_of (after_slash s) o) (sym bits)
            ∙ (ap (λ o. parse_if s o) (sym good) ∙ e))
  ]
]

version_eq_iff : (a b : Version) → (version_eq a b ≡ true) ↔ (a ≡ b)
version_eq_iff a b = ground arith

-- The prefix of a block that was read, as the quotient of its network address.
prefix_lem : (b : Block) (h : IsRead b) → b.net / 2 ^ (width_of b.version - b.len) ≡ h.prefix
prefix_lem b h =
    ap (λ k. k / 2 ^ (width_of b.version - b.len)) h.zeros
    ∙ mul-div_cancel h.prefix (pow_positive (width_of b.version - b.len))

-- All of a block's addresses, those below 2 ^ width, are another block's.
abbrev pub IsWithin : Block → Block → Type 0
IsWithin i o =
    (o.version ≡ i.version) × ((x : ℕ) → x < 2 ^ width_of i.version → IsIn i x → IsIn o x)

-- Blocks of the same version, whose prefixes decide.
module _ (o i : Block) (h : IsRead o) (k : IsRead i) (e : o.version ≡ i.version) where
  same_width : width_of o.version ≡ width_of i.version
  same_width = ap width_of e

  covers-prefix : covers o i ≡ (
      leb o.len i.len
      && (masked (width_of o.version) o.len (k.prefix * 2 ^ (width_of o.version - i.len))
          == h.prefix * 2 ^ (width_of o.version - o.len)))
  covers-prefix = rw ((version_eq_iff o.version i.version).1 e, ← h.zeros, k.zeros, same_width) refl

  prefix_decides : (covers o i ≡ true) ↔ Includes (width_of o.version) o.len i.len h.prefix k.prefix
  prefix_decides =
      let test =
        test_iff (width_of o.version) o.len i.len h.prefix k.prefix h.fits
          (omega (arith, k.fits, same_width)) k.small in
      (λ c. test.0 (sym covers-prefix ∙ c), λ f. covers-prefix ∙ test.1 f)

  inside-prefix : (x : ℕ) → IsIn i x → x / 2 ^ (width_of o.version - i.len) ≡ k.prefix
  inside-prefix x inside = rw same_width inside ∙ prefix_lem i k

  prefix-inside : (x : ℕ) → x / 2 ^ (width_of o.version - i.len) ≡ k.prefix → IsIn i x
  prefix-inside x begins = rw (← same_width) begins ∙ sym (prefix_lem i k)

covers_iff : (o i : Block) → IsRead o → IsRead i → (covers o i ≡ true) ↔ IsWithin i o
covers_iff o i h k = (
  λ c.
      let e = (version_eq_iff o.version i.version).0 (ground arith) in
      (
        e,
        λ x below inside.
            (prefix_decides o i h k e).0 c x
              (omega (arith, below, ap (λ w. 2 ^ w) (same_width o i h k e)))
              (inside-prefix o i h k e x inside)
            ∙ sym (prefix_lem o h),
      ),
  λ (e, f). (prefix_decides o i h k e).1 (λ x below begins.
      f x (omega (arith, below, ap (λ w. 2 ^ w) (same_width o i h k e)))
        (prefix-inside o i h k e x begins)
      ∙ prefix_lem o h),
)

-- For two texts that are read as blocks, `cidrCovers` answers true exactly if both are of the same
-- version of the protocol and every address whose first bits are those of the second block also
-- begins with the bits of the first.
pub cidr_covers_iff :
    (outer inner : Text) (o i : Block)
    → parse_block outer ≡ some o
    → parse_block inner ≡ some i
    → (cidr_covers outer inner ≡ true) ↔ IsWithin i o
unfolding cidr_covers
cidr_covers_iff outer inner o i e f =
    let same : cidr_covers outer inner ≡ covers o i = rw (e, f) refl in
    let decided = covers_iff o i (parse_block-IsRead outer o e) (parse_block-IsRead inner i f) in
    (λ c. decided.0 (sym same ∙ c), λ w. same ∙ decided.1 w)
