-- ===== src/Acme/Arcs.antt =====
-- src/acme/der.ts, the groups of seven bits that `oid` writes an arc in.
use native.Mathlib.Nat.{pow-succ'}
use barycenter.Prelude.{
  ℕ, zero, suc, ◌≡◌, refl, ap, ◌∙◌, ◌<◌, inl, inr, arith, ◌+◌, ◌-◌, ◌*◌, ◌/◌, ◌%◌, ◌^◌, Option,
  none, some, List, [], ◌∷◌, ◌++◌, ltb, ◌==◌, if◌then◌else◌, Bool-cases, IsAll, le→ltb,
}
use barycenter.Prelude.Text.{fold_left}
use barycenter.Acme.Der.{Bytes, chunks, continued, base_128}

-- The standard's decoder of an arc: the high bit says that more follows.
unfoldable pub read_arc : ℕ → Bytes → Option (ℕ × Bytes)
read_arc n [] = none
read_arc n (b ∷ bs) =
    let more = read_arc (n * 2 ^ 7 + (b - 2 ^ 7)) bs in
    if ltb b 128 then some (n * 2 ^ 7 + b, bs) else more

abbrev pub IsGroup : ℕ → Type 0
IsGroup c = c < 128

abbrev add_group : ℕ → ℕ → ℕ
add_group n c = n * 2 ^ 7 + c

read_arc-continued :
    (n c : ℕ) (cs : List ℕ) (rest : Bytes)
    → IsAll IsGroup (c ∷ cs)
    → read_arc n (continued (c ∷ cs) ++ rest) ≡ some (fold_left add_group n (c ∷ cs), rest)
unfolding read_arc
read_arc-continued n c [] rest h = ground arith
read_arc-continued n c (d ∷ cs) rest h = rw (le→ltb (c + 2 ^ 7) 128 (omega arith)) (
    ap (λ m. read_arc m (continued (d ∷ cs) ++ rest)) (unmarked n c)
    ∙ read_arc-continued (add_group n c) d cs rest h.1)
  where
    unmarked : (n c : ℕ) → n * 2 ^ 7 + (c + 2 ^ 7 - 2 ^ 7) ≡ add_group n c
    unmarked n c = omega arith

pub IsAll-chunks :
    (rounds v : ℕ) (found : List ℕ) → IsAll IsGroup found → IsAll IsGroup (chunks rounds v found)
unfolding chunks
IsAll-chunks zero v found h = h
IsAll-chunks (suc rounds) v found h = elim (Bool-cases (v % 2 ^ 32 / 2 ^ 7 == 0)) [
  | inl last ↦ rw last (omega arith, h)
  | inr more ↦
      rw more (IsAll-chunks rounds (v % 2 ^ 32 / 2 ^ 7) (v % 2 ^ 7 ∷ found) (omega arith, h))
]

chunks-cons :
    (rounds v c : ℕ) (found : List ℕ)
    → (d : ℕ) × (ds : List ℕ) × (chunks rounds v (c ∷ found) ≡ d ∷ ds)
unfolding chunks
chunks-cons zero v c found = (c, found, refl)
chunks-cons (suc rounds) v c found = elim (Bool-cases (v % 2 ^ 32 / 2 ^ 7 == 0)) [
  | inl last ↦ (v % 2 ^ 7, c ∷ found, rw last refl)
  | inr more ↦
      let (d, ds, e) = chunks-cons rounds (v % 2 ^ 32 / 2 ^ 7) (v % 2 ^ 7) (c ∷ found) in
      (d, ds, rw more e)
]

fold_left-chunks :
    (rounds v : ℕ) (found : List ℕ)
    → v % 2 ^ 32 < 128 ^ rounds
    → fold_left add_group 0 (chunks rounds v found) ≡ fold_left add_group (v % 2 ^ 32) found
unfolding chunks
fold_left-chunks zero v found small = ap (λ n. fold_left add_group n found) (omega arith)
fold_left-chunks (suc rounds) v found small = elim (Bool-cases (v % 2 ^ 32 / 2 ^ 7 == 0)) [
  | inl last ↦ rw last (ap (λ n. fold_left add_group n found) (ground arith))
  | inr more ↦ rw more (
      fold_left-chunks rounds (v % 2 ^ 32 / 2 ^ 7) (v % 2 ^ 7 ∷ found)
        (omega (arith, pow-succ' 128 rounds))
      ∙ ap (λ n. fold_left add_group n found) (omega arith))
]

some_group : (v : ℕ) → (d : ℕ) × (ds : List ℕ) × (chunks 5 v [] ≡ d ∷ ds)
unfolding chunks
some_group v = elim (Bool-cases (v % 2 ^ 32 / 2 ^ 7 == 0)) [
  | inl last ↦ (v % 2 ^ 7, [], rw last refl)
  | inr more ↦
      let (d, ds, e) = chunks-cons 4 (v % 2 ^ 32 / 2 ^ 7) (v % 2 ^ 7) [] in (d, ds, rw more e)
]

by_groups :
    (v : ℕ) (cs : List ℕ) (rest : Bytes)
    → ((d : ℕ) × (ds : List ℕ) × (cs ≡ d ∷ ds))
    → IsAll IsGroup cs
    → fold_left add_group 0 cs ≡ v % 2 ^ 32
    → read_arc 0 (continued cs ++ rest) ≡ some (v % 2 ^ 32, rest)
by_groups v [] rest (d, ds, e) h k = absurd (ground arith)
by_groups v (c ∷ cs) rest f h k = read_arc-continued 0 c cs rest h ∙ ap (λ n. some (n, rest)) k

-- The bytes that an arc is written in are read back by the standard's decoder, whatever follows them,
-- as the arc modulo 2 ^ 32.
pub read_arc-base_128 :
    (v : ℕ) (rest : Bytes) → read_arc 0 (base_128 v ++ rest) ≡ some (v % 2 ^ 32, rest)
unfolding base_128
read_arc-base_128 v rest =
    by_groups v (chunks 5 v []) rest (some_group v) (IsAll-chunks 5 v [] tt)
      (fold_left-chunks 5 v [] (omega arith))
