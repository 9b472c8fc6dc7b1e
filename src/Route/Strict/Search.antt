-- ===== src/Route/Strict/Search.antt =====
-- src/route/compile.ts, the search by depth first in `planStrictPriority`: when it ends, and what it
-- finds.
use mathlib.Core.Path.{subst}
use barycenter.Prelude.Sorting.{IsOrdered, IsOrdered-append}
use barycenter.Prelude.{
  ◌≢◌, ℕ, zero, suc, ◌+◌, ◌≡◌, ◌≤◌, ◌<◌, ◌↔◌, ◌⊎◌, refl, sym, ◌∙◌, inl, inr, arith, true, false,
  some, List, [], ◌∷◌, ◌++◌,
}
use barycenter.Prelude.Lists.{IsAll-IsIn, IsIn, IsIn-append}
use barycenter.Prelude.Text.{length}
use barycenter.Route.Strict.{Adjacency, has, visit, search_from}
use barycenter.Route.Strict.Links.{Linked, at_start, along, Linked-trans}
use barycenter.Route.Strict.Visit.{has_iff, unseen, unseen_new, unseen_all, visit_lem}

module _ (adj : Adjacency) where
  abbrev pub Near : ℕ → ℕ → Type 0
  Near x y = IsIn y (adj x)

  -- A set of indices that no edge leaves.
  abbrev pub IsClosed : List ℕ → Type 0
  IsClosed seen = (x y : ℕ) → IsIn x seen → IsIn y (adj x) → IsIn y seen

  -- What a search from an index that is not seen finds, and what is seen after it.
  pub record Component (s : ℕ) (old found reached : List ℕ) : Type 0 where
    pub all_linked : (x : ℕ) → (IsIn x found) ↔ Linked Near s x
    pub once : IsOrdered ◌≢◌ found
    pub unseen_before : (x : ℕ) → IsIn x found → IsIn x old → ⊥
    pub all_seen : (x : ℕ) → (IsIn x reached) ↔ (IsIn x old ⊎ IsIn x found)

module _ (adj : Adjacency) (n : ℕ) (in_range : (x y : ℕ) → IsIn y (adj x) → y < n)
    (back : (x y : ℕ) → IsIn y (adj x) → IsIn x (adj y)) where
  -- What the loop over the stack keeps; `old` is the set of before the search from `s`.
  record Searching (s : ℕ) (old stack seen comp : List ℕ) : Type 0 where
    pub linked : (x : ℕ) → IsIn x comp → Linked (Near adj) s x
    pub linked_stack : (x : ℕ) → IsIn x stack → Linked (Near adj) s x
    pub only : (x : ℕ) → IsIn x seen → IsIn x old ⊎ (IsIn x comp ⊎ IsIn x stack)
    pub keeps : (x : ℕ) → IsIn x old → IsIn x seen
    pub keeps_comp : (x : ℕ) → IsIn x comp → IsIn x seen
    pub keeps_stack : (x : ℕ) → IsIn x stack → IsIn x seen
    pub closed : (x y : ℕ) → IsIn x comp → IsIn y (adj x) → IsIn y seen
    pub once : IsOrdered ◌≢◌ comp
    pub once_stack : IsOrdered ◌≢◌ stack
    pub apart : (x : ℕ) → IsIn x comp → IsIn x stack → ⊥
    pub start : IsIn s comp ⊎ IsIn s stack

  Searching-step :
      (s : ℕ) (old : List ℕ) (cur : ℕ) (stack seen comp : List ℕ)
      → Searching s old (cur ∷ stack) seen comp
      → Searching s old
          (visit (adj cur) seen stack).1
          (visit (adj cur) seen stack).0
          (comp ++ (cur ∷ []))
  Searching-step s old cur stack seen comp h =
      let v = visit_lem n (adj cur) seen stack (in_range cur) in
      record {
        linked = λ x m. elim ((IsIn-append x comp (cur ∷ [])).0 m) [
          | inl c ↦ h.linked x c
          | inr (inl e) ↦ h.linked_stack x (inl e)
          | inr (inr nothing) ↦ absurd nothing
        ];
        linked_stack = λ x m. elim (v.stacks x m) [
          | inl old_one ↦ h.linked_stack x (inr old_one)
          | inr nb ↦
              Linked-trans (Near adj) s cur x (h.linked_stack cur (inl refl))
                (along cur x x nb (at_start x))
        ];
        only = λ x m. elim (v.only x m) [
          | inl before ↦ elim (h.only x before) [
            | inl o ↦ inl o
            | inr (inl c) ↦ inr (inl ((IsIn-append x comp (cur ∷ [])).1 (inl c)))
            | inr (inr (inl e)) ↦ inr (inl ((IsIn-append x comp (cur ∷ [])).1 (inr (inl e))))
            | inr (inr (inr t)) ↦ inr (inr (v.keeps_stack x t))
          ]
          | inr t ↦ inr (inr t)
        ];
        keeps = λ x m. v.keeps x (h.keeps x m);
        keeps_comp = λ x m. elim ((IsIn-append x comp (cur ∷ [])).0 m) [
          | inl c ↦ v.keeps x (h.keeps_comp x c)
          | inr (inl e) ↦ v.keeps x (h.keeps_stack x (inl e))
          | inr (inr nothing) ↦ absurd nothing
        ];
        keeps_stack = λ x m. elim (v.stacks x m) [
          | inl t ↦ v.keeps x (h.keeps_stack x (inr t))
          | inr nb ↦ v.sees x nb
        ];
        closed = λ x y m k. elim ((IsIn-append x comp (cur ∷ [])).0 m) [
          | inl c ↦ v.keeps y (h.closed x y c k)
          | inr (inl e) ↦ v.sees y (subst (λ z. IsIn y (adj z)) (sym e) k)
          | inr (inr nothing) ↦ absurd nothing
        ];
        once =
            IsOrdered-append ◌≢◌ comp (cur ∷ []) h.once (tt, tt)
              (λ x m y k e. elim k [
                | inl same ↦ h.apart x m (inl (same ∙ sym e))
                | inr nothing ↦ absurd nothing
              ]);
        once_stack = v.once h.once_stack.1 (λ x m. h.keeps_stack x (inr m));
        apart = λ x m k. elim (v.fresh x k) [
          | inl old_one ↦ elim ((IsIn-append x comp (cur ∷ [])).0 m) [
            | inl c ↦ h.apart x c (inr old_one)
            | inr (inl e) ↦ IsAll-IsIn (λ y. cur ≢ y) x stack h.once_stack.0 old_one e
            | inr (inr nothing) ↦ absurd nothing
          ]
          | inr f ↦ elim ((IsIn-append x comp (cur ∷ [])).0 m) [
            | inl c ↦ f (h.keeps_comp x c)
            | inr (inl e) ↦ f (h.keeps_stack x (inl e))
            | inr (inr nothing) ↦ absurd nothing
          ]
        ];
        start = elim h.start [
          | inl c ↦ inl ((IsIn-append s comp (cur ∷ [])).1 (inl c))
          | inr (inl e) ↦ inl ((IsIn-append s comp (cur ∷ [])).1 (inr (inl e)))
          | inr (inr t) ↦ inr (v.keeps_stack s t)
        ];
      }

  -- The loop ends when there is as much fuel as there are indices to push and to pop.
  search_from-Searching :
      (fuel s : ℕ) (old stack seen comp : List ℕ)
      → Searching s old stack seen comp
      → unseen n seen + length stack ≤ fuel
      → (found : List ℕ) × (reached : List ℕ) × (search_from adj fuel stack seen comp
          ≡ some (found, reached))
        × Searching s old [] reached found
  unfolding search_from
  search_from-Searching fuel s old [] seen comp h enough = (comp, seen, refl, h)
  search_from-Searching zero s old (cur ∷ stack) seen comp h enough = absurd (omega arith)
  search_from-Searching (suc fuel) s old (cur ∷ stack) seen comp h enough =
      let v = visit_lem n (adj cur) seen stack (in_range cur) in
      search_from-Searching fuel s old (visit (adj cur) seen stack).1 (visit (adj cur) seen stack).0
        (comp ++ (cur ∷ [])) (Searching-step s old cur stack seen comp h) (omega (arith, v.less))

  not_old :
      (old : List ℕ)
      → IsClosed adj old
      → (s x : ℕ) → Linked (Near adj) s x
      → IsIn x old
      → IsIn s old
  not_old old closed _ _ (at_start x) m = m
  not_old old closed _ _ (along x y z r h) m = closed y x (not_old old closed y z h m) (back x y r)

  reaches :
      (s : ℕ) (old seen comp : List ℕ)
      → Searching s old [] seen comp
      → IsClosed adj old
      → (IsIn s old → ⊥)
      → (x z : ℕ) → Linked (Near adj) x z
      → IsIn x comp
      → IsIn z comp
  reaches s old seen comp h closed new _ _ (at_start x) m = m
  reaches s old seen comp h closed new _ _ (along x y z r k) m =
      reaches s old seen comp h closed new y z k (elim (h.only y (h.closed x y m r)) [
        | inl o ↦ absurd (
            new (
              not_old old closed s y
                (Linked-trans (Near adj) s x y (h.linked x m) (along x y y r (at_start y))) o))
        | inr (inl c) ↦ c
        | inr (inr nothing) ↦ absurd nothing
      ])

  pub search_from_lem :
      (s : ℕ) (old : List ℕ)
      → s < n
      → IsClosed adj old
      → has s old ≡ false
      → (found : List ℕ) × (reached : List ℕ) × (search_from adj n (s ∷ []) (s ∷ old) []
          ≡ some (found, reached))
        × Component adj s old found reached
  search_from_lem s old small closed new =
      let begun : Searching s old (s ∷ []) (s ∷ old) [] = record {
        linked = λ x m. absurd m;
        linked_stack = λ x m. elim m [
          | inl e ↦ subst (λ y. Linked (Near adj) s y) e (at_start s)
          | inr nothing ↦ absurd nothing
        ];
        only = λ x m. elim m [ inl e ↦ inr (inr (inl e)) | inr o ↦ inl o ];
        keeps = λ x m. inr m;
        keeps_comp = λ x m. absurd m;
        keeps_stack = λ x m. elim m [ inl e ↦ inl e | inr nothing ↦ absurd nothing ];
        closed = λ x y m k. absurd m;
        once = tt;
        once_stack = (tt, tt);
        apart = λ x m k. absurd m;
        start = inr (inl refl);
      } in
      let (found, reached, e, h) =
        search_from-Searching n s old (s ∷ []) (s ∷ old) [] begun enough in
      (
        found,
        reached,
        e,
        record {
          once = h.once;
          unseen_before = λ x m k. fresh (not_old old closed s x (h.linked x m) k);
          all_linked = λ x. (
            h.linked x,
            λ k. reaches s old reached found h closed fresh s x k (started found h.start),
          );
          all_seen = λ x. (
            λ m. elim (h.only x m) [
              | inl o ↦ inl o
              | inr (inl c) ↦ inr c
              | inr (inr nothing) ↦ absurd nothing
            ],
            λ m. elim m [ inl o ↦ h.keeps x o | inr c ↦ h.keeps_comp x c ],
          );
        },
      )
    where
      enough : (unseen n (s ∷ old) + 1) ≤ n
      enough = omega (arith, unseen_new n s old small new, unseen_all n old)

      fresh : IsIn s old → ⊥
      fresh m = contra (sym ((has_iff s old).1 m) ∙ new)
        where
          contra : true ≡ false → ⊥
          contra e = cc

      started : (found : List ℕ) → (IsIn s found ⊎ IsIn s []) → IsIn s found
      started found (inl m) = m
      started found (inr nothing) = absurd nothing
