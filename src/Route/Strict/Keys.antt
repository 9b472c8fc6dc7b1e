-- ===== src/Route/Strict/Keys.antt =====
-- src/route/compile.ts, the patterns that `planStrictPriority` lowers.
use mathlib.Core.Path.{subst}
use barycenter.Prelude.Lists.{any-IsIn, IsIn, IsIn-append}
use barycenter.Prelude.{
  ℕ, ◌≡◌, ◌≢◌, ◌<◌, ◌↔◌, ◌⊎◌, refl, ap, ◌∙◌, inl, inr, arith, true, false, Option, none, some, List,
  [], ◌∷◌, map, ◌==◌, Bool-cases,
}
use barycenter.Prelude.Sorting.{sort_by-IsIn}
use barycenter.Prelude.Text.{Text, length, text_eq}
use barycenter.Validate.Contention.{text_eq_iff}
use barycenter.Validate.Strings.{HostPattern, exact, wildcard}
use barycenter.Validate.Strings.Header.{has_text}
use barycenter.Route.{pattern_key, patterns_conflict}
use barycenter.Route.Strict.{
  HostEntry, host_at, add_key, add_keys, goes_first, key_of, key_at, order_of, plan_of,
  StrictPriorityPlan, plan_strict_priority,
}
use barycenter.Route.Strict.Graph.{host_at-length}
use barycenter.Route.Strict.Links.{at_start, along}
use barycenter.Route.Strict.Lowered.{IsBeaten, IsBeaten-Linked, lowered_indices_lem}

map_iff :
    (f : ℕ → Text) (t : Text) (xs : List ℕ)
    → (IsIn t (map f xs)) ↔ ((x : ℕ) × IsIn x xs × (f x ≡ t))
map_iff f t [] = (λ h. absurd h, λ (x, m, e). absurd m)
map_iff f t (y ∷ ys) = (
  λ h. elim h [
    | inl e ↦ (y, inl refl, e)
    | inr r ↦ let (x, m, e) = (map_iff f t ys).0 r in (x, inr m, e)
  ],
  λ (x, m, e). elim m [
    | inl same ↦ inl (ap f same ∙ e)
    | inr r ↦ inr ((map_iff f t ys).1 (x, r, e))
  ],
)

pub has_text_iff : (t : Text) (xs : List Text) → (has_text t xs ≡ true) ↔ IsIn t xs
has_text_iff t xs = any-IsIn (λ x. text_eq x t) t (λ x. text_eq_iff x t) xs

add_key_iff : (t k : Text) (ks : List Text) → (IsIn t (add_key k ks)) ↔ (IsIn t ks ⊎ (k ≡ t))
add_key_iff t k ks = elim (Bool-cases (has_text k ks)) [
  | inl known ↦ rw known (
    λ h. inl h,
    λ h. elim h [ inl l ↦ l | inr e ↦ subst (λ x. IsIn x ks) e ((has_text_iff k ks).0 known) ],
  )
  | inr new ↦ rw new (
    λ h. elim ((IsIn-append t ks (k ∷ [])).0 h) [
      | inl l ↦ inl l
      | inr (inl e) ↦ inr e
      | inr (inr nothing) ↦ absurd nothing
    ],
    λ h. (IsIn-append t ks (k ∷ [])).1 (elim h [ inl l ↦ inl l | inr e ↦ inr (inl e) ]),
  )
]

add_keys_iff :
    (hosts : List HostEntry) (t : Text) (xs : List ℕ) (ks : List Text)
    → (IsIn t (add_keys hosts xs ks)) ↔ (IsIn t ks ⊎ ((x : ℕ) × IsIn x xs × (key_at hosts x ≡ t)))
add_keys_iff hosts t [] ks = (λ h. inl h, λ h. elim h [ inl l ↦ l | inr (x, m, e) ↦ absurd m ])
add_keys_iff hosts t (y ∷ ys) ks =
    let later = add_keys_iff hosts t ys (add_key (key_at hosts y) ks) in
    let now = add_key_iff t (key_at hosts y) ks in
    (
      λ h. elim (later.0 h) [
        | inl here ↦ elim (now.0 here) [ inl l ↦ inl l | inr e ↦ inr (y, inl refl, e) ]
        | inr (x, m, e) ↦ inr (x, inr m, e)
      ],
      λ h. later.1 (elim h [
        | inl l ↦ inl (now.1 (inl l))
        | inr (x, inl same, e) ↦ inl (now.1 (inr (ap (key_at hosts) same ∙ e)))
        | inr (x, inr m, e) ↦ inr (x, m, e)
      ]),
    )

pattern_key_injective : (p q : HostPattern) → pattern_key p ≡ pattern_key q → p ≡ q
pattern_key_injective (exact g) (exact h) e = ap exact (tails g h e)
  where
    tails : (g h : Text) → ◌≡◌ {A = Text} (61 ∷ g) (61 ∷ h) → g ≡ h
    tails g h e = ground arith
pattern_key_injective (exact g) (wildcard t) e = absurd (ground arith)
pattern_key_injective (wildcard s) (exact h) e = absurd (ground arith)
pattern_key_injective (wildcard s) (wildcard t) e = ap wildcard (tails s t e)
  where
    tails : (g h : Text) → ◌≡◌ {A = Text} (42 ∷ g) (42 ∷ h) → g ≡ h
    tails g h e = ground arith

patterns_conflict_self : (p : HostPattern) → patterns_conflict p p ≡ true
unfolding patterns_conflict
patterns_conflict_self (exact h) = (text_eq_iff h h).1 refl
patterns_conflict_self (wildcard s) = (text_eq_iff s s).1 refl

key_of-some :
    (o : Option HostEntry) (p : HostPattern)
    → key_of o ≡ pattern_key p
    → (h : HostEntry) × (o ≡ some h) × (h.pattern ≡ p)
key_of-some none (exact g) e = absurd (ground arith)
key_of-some none (wildcard s) e = absurd (ground arith)
key_of-some (some h) p e = (h, refl, pattern_key_injective h.pattern p e)

-- Whoever has the key of a host that is beaten is beaten.
same_key :
    (hosts : List HostEntry) (x i : ℕ) (h : HostEntry)
    → host_at hosts i ≡ some h
    → key_at hosts x ≡ pattern_key h.pattern
    → (x < length hosts) × (IsBeaten hosts x → IsBeaten hosts i)
same_key hosts x i h e k =
    let (g, there, same) = key_of-some (host_at hosts x) h.pattern k in
    (
      host_at-length hosts x g there,
      λ b. elim (Bool-cases (x == i)) [
        | inl one ↦ subst (λ n. IsBeaten hosts n) (equal x i one) b
        | inr two ↦
            let conflict : patterns_conflict g.pattern h.pattern ≡ true =
              rw same (patterns_conflict_self h.pattern) in
            IsBeaten-Linked hosts x i
              (along x i i (g, h, differ x i two, there, e, conflict) (at_start i)) b
      ],
    )
  where
    equal : (y x : ℕ) → (y == x) ≡ true → y ≡ x
    equal y x h = ground arith

    differ : (y x : ℕ) → (y == x) ≡ false → y ≢ x
    differ y x h e = ground arith

keys_iff :
    (hosts : List HostEntry) (result : List ℕ) (i : ℕ) (h : HostEntry)
    → ((x : ℕ) → x < length hosts → (IsIn x result) ↔ IsBeaten hosts x)
    → host_at hosts i ≡ some h
    → ((x : ℕ) × IsIn x result × (key_at hosts x ≡ pattern_key h.pattern)) ↔ IsBeaten hosts i
keys_iff hosts result i h lowers e = (
  λ (x, m, k). let (range, carry) = same_key hosts x i h e k in carry ((lowers x range).0 m),
  λ b. (i, (lowers i (host_at-length hosts i h e)).1 b, ap key_of e),
)

-- `planStrictPriority` always gives a plan, and the plan lowers the pattern of a host, in `lowered`
-- and in `order`, exactly if conflicts lead from the host, through any number of others, to two hosts
-- such that the class of one is tried first and its priority is the lower one.
pub plan_strict_priority_iff :
    (hosts : List HostEntry) (i : ℕ) (h : HostEntry)
    → host_at hosts i ≡ some h
    → (plan : StrictPriorityPlan) × (plan_strict_priority hosts ≡ some plan)
      × ((IsIn (pattern_key h.pattern) plan.lowered) ↔ IsBeaten hosts i)
      × ((IsIn (pattern_key h.pattern) plan.order) ↔ IsBeaten hosts i)
unfolding plan_strict_priority order_of
plan_strict_priority_iff hosts i h e =
    let (result, found, lowers, _, _) = lowered_indices_lem hosts in
    let sorted = order_of hosts result in
    let plan : StrictPriorityPlan = record {
      lowered = add_keys hosts result [];
      order = map (key_at hosts) sorted;
    } in
    let keys = keys_iff hosts result i h lowers e in
    let member =
      λ (x : ℕ). sort_by-IsIn (λ x y. goes_first (host_at hosts x) (host_at hosts y)) x result in
    let listed = add_keys_iff hosts (pattern_key h.pattern) result [] in
    let mapped = map_iff (key_at hosts) (pattern_key h.pattern) sorted in
    (
      plan,
      ap (plan_of hosts) found,
      (
        λ m. elim (listed.0 m) [ inl nothing ↦ absurd nothing | inr k ↦ keys.0 k ],
        λ b. listed.1 (inr (keys.1 b)),
      ),
      (
        λ m. let (x, k, same) = mapped.0 m in keys.0 (x, (member x).0 k, same),
        λ b. let (x, k, same) = keys.1 b in mapped.1 (x, (member x).1 k, same),
      ),
    )
