-- ===== src/Dp/Retention/Newest.antt =====
-- What all elements of a list have, through the list functions of a sweep; and that the candidates
-- stand with the newest first.
use barycenter.Prelude.{
  IsAll, ℕ, ◌≡◌, ◌≤◌, Bool, true, List, [], ◌∷◌, ◌-◌, arith, ltb, Bool-cases, inl, inr, map, ◌==◌,
}
use barycenter.Dp.Agent.Prune.{keep}
use barycenter.Dp.Retention.{Candidate, insert_candidate, newest_first, skip}

module _ {A : Type 0} (P : A → Type 0) where
  pub IsAll-keep : (test : A → Bool) (xs : List A) → IsAll P xs → IsAll P (keep test xs)
  unfolding keep
  IsAll-keep test [] h = tt
  IsAll-keep test (x ∷ xs) (p, h) = elim (Bool-cases (test x)) [
    | inl passes ↦ rw passes (p, IsAll-keep test xs h)
    | inr fails ↦ rw fails (IsAll-keep test xs h)
  ]

  pub IsAll-skip : (n : ℕ) (xs : List A) → IsAll P xs → IsAll P (skip n xs)
  unfolding skip
  IsAll-skip n [] h = tt
  IsAll-skip n (x ∷ xs) (p, h) = elim (Bool-cases (n == 0)) [
    | inl none ↦ rw none (p, h)
    | inr some ↦ rw some (IsAll-skip (n - 1) xs h)
  ]

pub IsAll-kept :
    {A : Type 0} (test : A → Bool) (xs : List A) → IsAll (λ x. test x ≡ true) (keep test xs)
unfolding keep
IsAll-kept test [] = tt
IsAll-kept test (x ∷ xs) = elim (Bool-cases (test x)) [
  | inl passes ↦ rw passes (passes, IsAll-kept test xs)
  | inr fails ↦ rw fails (IsAll-kept test xs)
]

pub IsAll-map :
    {A B : Type 0} (P : B → Type 0) (f : A → B) (xs : List A)
    → IsAll (λ x. P (f x)) xs
    → IsAll P (map f xs)
IsAll-map P f [] h = tt
IsAll-map P f (x ∷ xs) (p, h) = (p, IsAll-map P f xs h)

pub IsAll-with :
    {A : Type 0} (P Q R : A → Type 0) (xs : List A)
    → ((x : A) → P x → Q x → R x)
    → IsAll P xs
    → IsAll Q xs
    → IsAll R xs
IsAll-with P Q R [] f h k = tt
IsAll-with P Q R (x ∷ xs) f (p, h) (q, k) = (f x p q, IsAll-with P Q R xs f h k)

pub IsAll-insert_candidate :
    (P : Candidate → Type 0) (c : Candidate) (cs : List Candidate)
    → P c
    → IsAll P cs
    → IsAll P (insert_candidate c cs)
unfolding insert_candidate
IsAll-insert_candidate P c [] p h = (p, tt)
IsAll-insert_candidate P c (d ∷ ds) p (q, h) = elim (Bool-cases (ltb c.mtime d.mtime)) [
  | inl older ↦ rw older (q, IsAll-insert_candidate P c ds p h)
  | inr newer ↦ rw newer (p, (q, h))
]

pub IsAll-newest_first :
    (P : Candidate → Type 0) (cs : List Candidate) → IsAll P cs → IsAll P (newest_first cs)
unfolding newest_first
IsAll-newest_first P [] h = tt
IsAll-newest_first P (c ∷ cs) (p, h) =
    IsAll-insert_candidate P c (newest_first cs) p (IsAll-newest_first P cs h)

abbrev pub IsNewestFirst : List Candidate → Type 0
IsNewestFirst [] = Unit {0}
IsNewestFirst (c ∷ cs) = IsAll (λ d. d.mtime ≤ c.mtime) cs × IsNewestFirst cs

insert_candidate-IsNewestFirst :
    (c : Candidate) (cs : List Candidate) → IsNewestFirst cs → IsNewestFirst (insert_candidate c cs)
unfolding insert_candidate
insert_candidate-IsNewestFirst c [] h = (tt, tt)
insert_candidate-IsNewestFirst c (d ∷ ds) (below, h) = elim (Bool-cases (ltb c.mtime d.mtime)) [
  | inl older ↦ rw older (
    IsAll-insert_candidate (λ e. e.mtime ≤ d.mtime) c ds (ground arith) below,
    insert_candidate-IsNewestFirst c ds h,
  )
  | inr newer ↦
      let at_most : d.mtime ≤ c.mtime = ground arith in
      rw newer (
        (
          at_most,
          IsAll-with (λ e. e.mtime ≤ d.mtime) (λ e. e.mtime ≤ d.mtime) (λ e. e.mtime ≤ c.mtime) ds
              (λ e p q. omega arith) below below,
        ),
        (below, h),
      )
]

pub newest_first-IsNewestFirst : (cs : List Candidate) → IsNewestFirst (newest_first cs)
unfolding newest_first
newest_first-IsNewestFirst [] = tt
newest_first-IsNewestFirst (c ∷ cs) =
    insert_candidate-IsNewestFirst c _ (newest_first-IsNewestFirst cs)
