-- ===== src/Route/Strict/Visit.antt =====
-- src/route/compile.ts, the loop over the neighbours of an index in `planStrictPriority`.
use mathlib.Core.Path.{subst}
use barycenter.Prelude.Lists.{IsAll-of, any-IsIn, IsIn}
use barycenter.Prelude.Tests.{==_iff}
use barycenter.Prelude.Sorting.{IsOrdered}
use barycenter.Prelude.{
  ◌≢◌, sym, ◌∙◌, ℕ, zero, suc, ◌+◌, ◌≡◌, ◌≤◌, ◌<◌, ◌↔◌, ◌⊎◌, refl, inl, inr, arith, true, false,
  ◌||◌, List, [], ◌∷◌, ◌==◌, if◌then◌else◌, Bool-cases,
}
use barycenter.Prelude.Text.{length}
use barycenter.Route.Strict.{has, visit}

pub has_iff : (x : ℕ) (ys : List ℕ) → (has x ys ≡ true) ↔ IsIn x ys
has_iff x ys = any-IsIn (λ y. y == x) x (λ y. ==_iff y x) ys

-- The number of the indices below `n` that are not seen.
unfoldable pub unseen : ℕ → List ℕ → ℕ
unseen zero seen = 0
unseen (suc n) seen = (if has n seen then 0 else 1) + unseen n seen

unseen_less : (n x : ℕ) (seen : List ℕ) → unseen n (x ∷ seen) ≤ unseen n seen
unfolding unseen
unseen_less zero x seen = omega arith
unseen_less (suc n) x seen = ground (arith, unseen_less n x seen)

pub unseen_new :
    (n x : ℕ) (seen : List ℕ) → x < n → has x seen ≡ false → unseen n (x ∷ seen) < unseen n seen
unfolding unseen
unseen_new zero x seen h k = absurd (omega arith)
unseen_new (suc n) x seen h k = elim (Bool-cases (x == n)) [
  | inl same ↦ at_last same
  | inr other ↦ ground (arith, unseen_new n x seen (below x n h other) k)
]
  where
    below : (x n : ℕ) → x < suc n → (x == n) ≡ false → x < n
    below x n h k = ground arith

    at_last :
        (x == n) ≡ true
        → ((if (x == n) || has n seen then 0 else 1) + unseen n (x ∷ seen))
          < ((if has n seen then 0 else 1) + unseen n seen)
    at_last same = rw (same, unseen_here) (omega (arith, unseen_less n x seen))
      where
        unseen_here : has n seen ≡ false
        unseen_here = subst (λ m. has m seen ≡ false) (same_number x n same) k
          where
            same_number : (x n : ℕ) → (x == n) ≡ true → x ≡ n
            same_number x n h = ground arith

pub unseen_all : (n : ℕ) (seen : List ℕ) → unseen n seen ≤ n
unfolding unseen
unseen_all zero seen = omega arith
unseen_all (suc n) seen = ground (arith, unseen_all n seen)

-- What a round of the loop over neighbours leaves.
pub record Visited (n : ℕ) (nbs seen stack seen' stack' : List ℕ) : Type 0 where
  pub keeps : (x : ℕ) → IsIn x seen → IsIn x seen'
  pub keeps_stack : (x : ℕ) → IsIn x stack → IsIn x stack'
  pub sees : (x : ℕ) → IsIn x nbs → IsIn x seen'
  pub stacks : (x : ℕ) → IsIn x stack' → IsIn x stack ⊎ IsIn x nbs
  pub only : (x : ℕ) → IsIn x seen' → IsIn x seen ⊎ IsIn x stack'
  pub fresh : (x : ℕ) → IsIn x stack' → IsIn x stack ⊎ (IsIn x seen → ⊥)
  pub once : IsOrdered ◌≢◌ stack → ((x : ℕ) → IsIn x stack → IsIn x seen) → IsOrdered ◌≢◌ stack'
  pub less : unseen n seen' + length stack' ≤ unseen n seen + length stack

pub visit_lem :
    (n : ℕ) (nbs seen stack : List ℕ)
    → ((x : ℕ) → IsIn x nbs → x < n)
    → Visited n nbs seen stack (visit nbs seen stack).0 (visit nbs seen stack).1
unfolding visit
visit_lem n [] seen stack h = record {
  keeps = λ x m. m;
  keeps_stack = λ x m. m;
  sees = λ x m. absurd m;
  stacks = λ x m. inl m;
  only = λ x m. inl m;
  fresh = λ x m. inl m;
  once = λ d k. d;
  less = omega arith;
}
visit_lem n (nb ∷ nbs) seen stack h = elim (Bool-cases (has nb seen)) [
  | inl known ↦
      let v = visit_lem n nbs seen stack (λ x m. h x (inr m)) in
      let here : visit (nb ∷ nbs) seen stack ≡ visit nbs seen stack = rw known refl in
      rw here record {
        keeps = v.keeps;
        keeps_stack = v.keeps_stack;
        sees = λ x m. elim m [
          | inl e ↦ v.keeps x (subst (λ y. IsIn y seen) e ((has_iff nb seen).0 known))
          | inr r ↦ v.sees x r
        ];
        stacks = λ x m. elim (v.stacks x m) [ inl s ↦ inl s | inr r ↦ inr (inr r) ];
        only = v.only;
        fresh = v.fresh;
        once = v.once;
        less = v.less;
      }
  | inr new ↦
      let v = visit_lem n nbs (nb ∷ seen) (nb ∷ stack) (λ x m. h x (inr m)) in
      let fewer = unseen_new n nb seen (h nb (inl refl)) new in
      let not_seen = λ (s : IsIn nb seen). contra (sym ((has_iff nb seen).1 s) ∙ new) in
      let here : visit (nb ∷ nbs) seen stack ≡ visit nbs (nb ∷ seen) (nb ∷ stack) = rw new refl in
      rw here record {
        keeps = λ x m. v.keeps x (inr m);
        keeps_stack = λ x m. v.keeps_stack x (inr m);
        sees = λ x m. elim m [ inl e ↦ v.keeps x (inl e) | inr r ↦ v.sees x r ];
        stacks = λ x m. elim (v.stacks x m) [
          | inl (inl e) ↦ inr (inl e)
          | inl (inr s) ↦ inl s
          | inr r ↦ inr (inr r)
        ];
        only = λ x m. elim (v.only x m) [
          | inl (inl e) ↦ inr (v.keeps_stack x (inl e))
          | inl (inr s) ↦ inl s
          | inr r ↦ inr r
        ];
        fresh = λ x m. elim (v.fresh x m) [
          | inl (inl e) ↦ inr (λ s. not_seen (subst (λ y. IsIn y seen) (sym e) s))
          | inl (inr s) ↦ inl s
          | inr f ↦ inr (λ s. f (inr s))
        ];
        once = λ d k.
            v.once
              (
                IsAll-of (λ y. nb ≢ y) stack
                    (λ y m e. not_seen (subst (λ z. IsIn z seen) (sym e) (k y m))),
                d,
              )
              (λ x m. elim m [ inl e ↦ inl e | inr s ↦ inr (k x s) ]);
        less = omega (arith, v.less);
      }
]
  where
    contra : true ≡ false → ⊥
    contra e = cc
