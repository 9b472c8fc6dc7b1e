-- ===== src/Acme/Read.antt =====
-- src/acme/der.ts: what its encoder writes is read back by a decoder of DER, which is the standard's
-- and not the program's.
use native.Mathlib.Decide.{dec_le}
use barycenter.Prelude.{
  ◌↔◌, ℕ, zero, suc, ◌≡◌, refl, sym, ap, ◌∙◌, ◌≤◌, ◌<◌, inl, inr, arith, ◌+◌, ◌*◌, ◌/◌, ◌%◌, ◌^◌,
  true, Option, none, some, [], ◌∷◌, ◌++◌, leb, ltb, ◌==◌, if◌then◌else◌, Bool-cases, Option-cases,
  IsAll,
}
use barycenter.Prelude.Text.{length}
use barycenter.Acme.Der.{Bytes, len, headed, tlv}

abbrev pub three_bytes : Bytes → Option (ℕ × Bytes)
three_bytes (x ∷ y ∷ z ∷ bs) = some ((x * 2 ^ 8 + y) * 2 ^ 8 + z, bs)
three_bytes _ = none

abbrev pub two_bytes : Bytes → Option (ℕ × Bytes)
two_bytes (x ∷ y ∷ bs) = some (x * 2 ^ 8 + y, bs)
two_bytes _ = none

abbrev pub one_byte : Bytes → Option (ℕ × Bytes)
one_byte (x ∷ bs) = some (x, bs)
one_byte _ = none

-- The definite length: below 128 the octet itself, else the number of octets that hold it.
unfoldable pub read_length : Bytes → Option (ℕ × Bytes)
read_length [] = none
read_length (b ∷ bs) =
    if ltb b 128
    then some (b, bs)
    else if b == 129
    then one_byte bs
    else if b == 130
    then two_bytes bs
    else if b == 131
    then three_bytes bs
    else none

abbrev pub in_front : ℕ → Option (Bytes × Bytes) → Option (Bytes × Bytes)
in_front b none = none
in_front b (some (front, rest)) = some (b ∷ front, rest)

unfoldable pub split_at : ℕ → Bytes → Option (Bytes × Bytes)
split_at zero bs = some ([], bs)
split_at (suc n) [] = none
split_at (suc n) (b ∷ bs) = in_front b (split_at n bs)

abbrev pub tagged : ℕ → Option (Bytes × Bytes) → Option (ℕ × Bytes × Bytes)
tagged t none = none
tagged t (some (body, rest)) = some (t, body, rest)

abbrev pub of_length : ℕ → Option (ℕ × Bytes) → Option (ℕ × Bytes × Bytes)
of_length t none = none
of_length t (some (n, bs)) = tagged t (split_at n bs)

-- A tag, its body, and what stands after it.
unfoldable pub read_tlv : Bytes → Option (ℕ × Bytes × Bytes)
read_tlv [] = none
read_tlv (t ∷ bs) = of_length t (read_length bs)

split_at-length : (body rest : Bytes) → split_at (length body) (body ++ rest) ≡ some (body, rest)
unfolding split_at
split_at-length [] rest = refl
split_at-length (b ∷ body) rest = rw (split_at-length body rest) refl

abbrev pub IsByte : ℕ → Type 0
IsByte b = b < 256

-- Octets that are read as a length, whatever follows.
pub record IsLength (n : ℕ) (size : Bytes) : Type 0 where
  pub read : (rest : Bytes) → read_length (size ++ rest) ≡ some (n, rest)
  pub bytes : IsAll IsByte size

pub len-IsLength : (n : ℕ) → n ≤ 16777215 → (size : Bytes) × (len n ≡ some size) × IsLength n size
unfolding len read_length
len-IsLength n small = elim (Bool-cases (ltb n 128)) [
  | inl one ↦
      (n ∷ [], rw one refl, record { read = λ rest. rw one refl; bytes = (ground arith, tt) })
  | inr more ↦ elim (Bool-cases (leb n 255)) [
    | inl two ↦ (
      129 ∷ n ∷ [],
      rw (more, two) refl,
      record { read = λ rest. refl; bytes = (omega arith, (ground arith, tt)) },
    )
    | inr much ↦ elim (Bool-cases (leb n 65535)) [
      | inl three ↦ (
        130 ∷ n / 2 ^ 8 ∷ n % 2 ^ 8 ∷ [],
        rw (more, much, three) refl,
        record {
          read = λ rest. ap (λ k. some (k, rest)) (two_digits n);
          bytes = (omega arith, (ground arith, (ground arith, tt)));
        },
      )
      | inr most ↦ (
        131 ∷ n / 2 ^ 16 ∷ n / 2 ^ 8 % 2 ^ 8 ∷ n % 2 ^ 8 ∷ [],
        rw (more, much, most, le→leb n 16777215 small) refl,
        record {
          read = λ rest. ap (λ k. some (k, rest)) (three_digits n);
          bytes = (omega arith, (ground arith, (ground arith, (ground arith, tt))));
        },
      )
    ]
  ]
]
  where
    two_digits : (n : ℕ) → n / 2 ^ 8 * 2 ^ 8 + n % 2 ^ 8 ≡ n
    two_digits n = omega arith

    three_digits : (n : ℕ) → (n / 2 ^ 16 * 2 ^ 8 + n / 2 ^ 8 % 2 ^ 8) * 2 ^ 8 + n % 2 ^ 8 ≡ n
    three_digits n = omega arith

    le→leb : (a b : ℕ) → a ≤ b → leb a b ≡ true
    le→leb a b h = ground arith

pub len-bound : (n : ℕ) (size : Bytes) → len n ≡ some size → n ≤ 16777215
unfolding len
len-bound n size e = ground arith

append_assoc : (xs ys zs : Bytes) → (xs ++ ys) ++ zs ≡ xs ++ (ys ++ zs)
append_assoc [] ys zs = refl
append_assoc (x ∷ xs) ys zs = ap (λ r. x ∷ r) (append_assoc xs ys zs)

-- What is read of an encoding, whatever follows it.
abbrev pub ReadsBack : ℕ → Bytes → Bytes → Type 0
ReadsBack tag body out = (rest : Bytes) → read_tlv (out ++ rest) ≡ some (tag % 2 ^ 8, body, rest)

-- A body of up to 16777215 bytes is encoded, and what is encoded is read back whatever follows it,
-- the tag as its lowest byte.
pub read_tlv-tlv :
    (tag : ℕ) (body : Bytes)
    → length body ≤ 16777215
    → (out : Bytes) × (tlv tag body ≡ some out) × ReadsBack tag body out
unfolding tlv read_tlv
read_tlv-tlv tag body small =
    let (size, e, h) = len-IsLength (length body) small in
    (
      tag % 2 ^ 8 ∷ (size ++ body),
      ap (λ s. headed tag body s) e,
      λ rest.
          ap (λ bs. of_length (tag % 2 ^ 8) (read_length bs)) (append_assoc size body rest)
          ∙ (ap (λ r. of_length (tag % 2 ^ 8) r) (h.read (body ++ rest))
              ∙ ap (λ r. tagged (tag % 2 ^ 8) r) (split_at-length body rest)),
    )

-- A body is refused exactly if it is longer than that.
pub tlv-none_iff : (tag : ℕ) (body : Bytes) → (tlv tag body ≡ none) ↔ (16777215 < length body)
unfolding tlv
tlv-none_iff tag body = (
  λ refused. elim (dec_le (length body) 16777215) [
    | yes small ↦
        let (size, e, h) = len-IsLength (length body) small in
        absurd (some-none (sym (ap (λ s. headed tag body s) e) ∙ refused))
    | no large ↦ omega arith
  ],
  λ large. elim (Option-cases (len (length body))) [
    | inl refused ↦ ap (λ s. headed tag body s) refused
    | inr (size, e) ↦ absurd (omega (arith, large, len-bound (length body) size e))
  ],
)
  where
    some-none : {A : Type 0} {a : A} → some a ≡ none → ⊥
    some-none e = cc
