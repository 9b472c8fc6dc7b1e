-- ===== src/Acme/Open.antt =====
-- A reader of DER that goes down to the parts of a certificate request; like the decoder that it
-- uses, it is the standard's and not the program's.
use mathlib.Core.Path.{subst}
use barycenter.Prelude.{
  ℕ, ◌≡◌, refl, ap, true, Option, none, some, List, [], ◌∷◌, ◌++◌, arith, ◌==◌, if◌then◌else◌,
}
use barycenter.Prelude.Text.{Text, split}
use barycenter.Acme.Der.{Bytes, ◌>>=◌, tlv, numbers, oid_of, oid, tag_oid}
use barycenter.Acme.Read.{ReadsBack, read_tlv}
use barycenter.Acme.Names.{tlv-ReadsBackIf, ReadsBackIf}

abbrev opened : ℕ → Option (ℕ × Bytes × Bytes) → Option Bytes
opened t (some (u, body, [])) = if u == t then some body else none
opened t (some (u, body, b ∷ rest)) = none
opened t none = none

abbrev skipped : ℕ → Option (ℕ × Bytes × Bytes) → Option Bytes
skipped t (some (u, body, rest)) = if u == t then some rest else none
skipped t none = none

-- The body of the only element, of this tag.
unfoldable pub contents : ℕ → Bytes → Option Bytes
contents t bs = opened t (read_tlv bs)

-- What stands after an element of this tag.
unfoldable pub after : ℕ → Bytes → Option Bytes
after t bs = skipped t (read_tlv bs)

-- An element of a tag with a body, whatever follows it.
abbrev pub IsElement : ℕ → Bytes → Bytes → Type 0
IsElement t body out = (rest : Bytes) → read_tlv (out ++ rest) ≡ some (t, body, rest)

same_tag : (t : ℕ) → (t == t) ≡ true
same_tag t = ground arith

pub append_nil : (bs : Bytes) → bs ++ [] ≡ bs
append_nil [] = refl
append_nil (b ∷ bs) = ap (λ r. b ∷ r) (append_nil bs)

-- An element that is the last of a list.
pub contents_last :
    (t : ℕ) (body out : Bytes) → IsElement t body out → contents t (out ++ []) ≡ some body
unfolding contents
contents_last t body out h = rw (h [], same_tag t) refl

pub contents_lem : (t : ℕ) (body out : Bytes) → IsElement t body out → contents t out ≡ some body
contents_lem t body out h =
    subst (λ bs. contents t bs ≡ some body) (append_nil out) (contents_last t body out h)

pub after_lem :
    (t : ℕ) (body out rest : Bytes) → IsElement t body out → after t (out ++ rest) ≡ some rest
unfolding after
after_lem t body out rest h = rw (h rest, same_tag t) refl

pub bind-some :
    {A B : Type 0} (m : Option A) (f : A → Option B) (b : B)
    → (m >>= f) ≡ some b
    → (a : A) × (m ≡ some a) × (f a ≡ some b)
bind-some none f b e = absurd (none-some e)
  where
    none-some : {B : Type 0} {b : B} → none ≡ some b → ⊥
    none-some e = cc
bind-some (some a) f b e = (a, refl, e)

pub tlv-ReadsBack : (tag : ℕ) (body out : Bytes) → tlv tag body ≡ some out → ReadsBack tag body out
tlv-ReadsBack tag body out e = subst (ReadsBackIf tag body) e (tlv-ReadsBackIf tag body)

oid_of-IsElement :
    (arcs : List ℕ) (out : Bytes)
    → oid_of arcs ≡ some out
    → (body : Bytes) × IsElement tag_oid body out
unfolding oid_of
oid_of-IsElement [] out e = absurd (ground arith)
oid_of-IsElement (a ∷ []) out e = absurd (ground arith)
oid_of-IsElement (a ∷ b ∷ arcs) out e = (_, tlv-ReadsBack tag_oid _ out e)

pub oid-IsElement :
    (number_of : Text → Option ℕ) (t : Text) (out : Bytes)
    → oid number_of t ≡ some out
    → (body : Bytes) × IsElement tag_oid body out
oid-IsElement number_of t out e =
    let (arcs, found, f) = bind-some (numbers number_of (split 46 t)) oid_of out e in
    oid_of-IsElement arcs out f
