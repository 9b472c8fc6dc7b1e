-- ===== src/Acme/Names.antt =====
-- src/acme/der.ts, `generalNames`: the alternative names of a request are the domains.
use mathlib.Core.Path.{subst}
use native.Mathlib.Decide.{dec_le}
use barycenter.Prelude.{
  ℕ, zero, suc, ◌≡◌, refl, sym, ap, ◌∙◌, arith, Option, none, some, List, [], ◌∷◌, ◌++◌,
}
use barycenter.Prelude.Text.{Text, length}
use barycenter.Acme.Der.{
  Bytes, ◌>>=◌, tlv, concat, seq, tag_dns_name, dns_names, general_names, tag_sequence,
}
use barycenter.Acme.Read.{ReadsBack, read_tlv, read_tlv-tlv, tlv-none_iff}

-- An alternative name as it is read back.
abbrev pub name_read : Bytes → ℕ × Bytes
name_read t = (tag_dns_name, t)

-- The elements of a body, one after the other; the fuel is the number of elements.
unfoldable pub read_all : ℕ → Bytes → Option (List (ℕ × Bytes))
read_all zero [] = some []
read_all zero (b ∷ bs) = none
read_all (suc n) bs =
    read_tlv bs >>= λ (t, body, rest). read_all n rest >>= λ found. some ((t, body) ∷ found)

abbrev pub texts_of : (Text → Bytes) → List Text → List (ℕ × Bytes)
texts_of utf8_of [] = []
texts_of utf8_of (d ∷ ds) = name_read (utf8_of d) ∷ texts_of utf8_of ds

abbrev pub ReadsBackIf : ℕ → Bytes → Option Bytes → Type 0
ReadsBackIf tag body none = Unit {0}
ReadsBackIf tag body (some out) = ReadsBack tag body out

pub tlv-ReadsBackIf : (tag : ℕ) (body : Bytes) → ReadsBackIf tag body (tlv tag body)
tlv-ReadsBackIf tag body = elim (dec_le (length body) 16777215) [
  | yes small ↦
      let (out, e, h) = read_tlv-tlv tag body small in subst (ReadsBackIf tag body) (sym e) h
  | no large ↦ subst (ReadsBackIf tag body) (sym ((tlv-none_iff tag body).1 (omega arith))) tt
]

module _ (utf8_of : Text → Bytes) where
  AreRead : List Text → Option (List Bytes) → Type 0
  AreRead ds none = Unit {0}
  AreRead ds (some names) = read_all (length ds) (concat names) ≡ some (texts_of utf8_of ds)

  read_all-suc :
      (n : ℕ) (name : Bytes) (rest : Bytes) (body : Bytes)
      → ReadsBack tag_dns_name body name
      → read_all (suc n) (name ++ rest)
        ≡ (read_all n rest >>= λ found. some (name_read body ∷ found))
  unfolding read_all
  read_all-suc n name rest body h = rw (h rest) refl

  cons_names :
      (d : Text) (ds : List Text) (m : Option Bytes) (ms : Option (List Bytes))
      → ReadsBackIf tag_dns_name (utf8_of d) m
      → AreRead ds ms
      → AreRead (d ∷ ds) (m >>= λ name. ms >>= λ names. some (name ∷ names))
  unfolding AreRead
  cons_names d ds none ms h k = tt
  cons_names d ds (some name) none h k = tt
  cons_names d ds (some name) (some names) h k =
      read_all-suc (length ds) name (concat names) (utf8_of d) h
      ∙ ap (λ r. r >>= λ found. some (name_read (utf8_of d) ∷ found)) k

  dns_names-AreRead : (ds : List Text) → AreRead ds (dns_names utf8_of ds)
  unfolding dns_names AreRead read_all
  dns_names-AreRead [] = refl
  dns_names-AreRead (d ∷ ds) =
      cons_names d ds (tlv tag_dns_name (utf8_of d)) (dns_names utf8_of ds)
        (tlv-ReadsBackIf tag_dns_name (utf8_of d)) (dns_names-AreRead ds)

  -- What is read back of a request's names.
  abbrev pub IsNames : List Text → Option Bytes → Type 0
  IsNames ds none = Unit {0}
  IsNames ds (some out) =
      (body : Bytes) × ReadsBack tag_sequence body out
      × (read_all (length ds) body ≡ some (texts_of utf8_of ds))

  names-IsNames :
      (ds : List Text) (ms : Option (List Bytes))
      → AreRead ds ms
      → IsNames ds (ms >>= λ names. seq names)
  unfolding AreRead
  names-IsNames ds none h = tt
  names-IsNames ds (some names) h = named (seq names) (tlv-ReadsBackIf tag_sequence (concat names))
    where
      named : (m : Option Bytes) → ReadsBackIf tag_sequence (concat names) m → IsNames ds m
      named none k = tt
      named (some out) k = (concat names, k, h)

  -- The names of a request that is made are a sequence of one `dNSName` for each domain, in the
  -- domains' order, each with the domain's text and nothing else between or after them.
  pub general_names-read :
      (ds : List Text) (out : Bytes)
      → general_names utf8_of ds ≡ some out
      → (body : Bytes) × ReadsBack tag_sequence body out
        × (read_all (length ds) body ≡ some (texts_of utf8_of ds))
  unfolding general_names
  general_names-read ds out e =
      subst (IsNames ds) e (names-IsNames ds (dns_names utf8_of ds) (dns_names-AreRead ds))
