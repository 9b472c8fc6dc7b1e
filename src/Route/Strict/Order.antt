-- ===== src/Route/Strict/Order.antt =====
-- src/route/compile.ts, the order in which `planStrictPriority` lists what it lowers.
use barycenter.Prelude.Tests.{ltb→lt}
use barycenter.Prelude.{
  ◌≢◌, ◌⊎◌, ◌<◌, Bool-cases, ltb, ℕ, ◌≡◌, refl, sym, ap, ◌∙◌, inl, inr, arith, true, false, Option,
  none, some, List, [], ◌∷◌, map,
}
use barycenter.Route.Strict.Lowered.{lowered_indices_lem}
use barycenter.Prelude.Lists.{IsAll}
use barycenter.Prelude.Sorting.{IsAll-sorted, sort_by-IsApart, IsOrdered, sort_by-IsOrdered}
use barycenter.Prelude.Text.{Text, length}
use barycenter.Route.{text_less}
use barycenter.Route.Strict.{
  HostEntry, host_at, goes_first, key_at, order_of, plan_of, StrictPriorityPlan,
  plan_strict_priority,
}

text_less_not : (s t : Text) → text_less s t ≡ true → text_less t s ≡ false
unfolding text_less
text_less_not [] [] h = ground arith
text_less_not [] (y ∷ t) h = refl
text_less_not (x ∷ s) [] h = absurd (ground arith)
text_less_not (x ∷ s) (y ∷ t) h = ground (arith, text_less_not s t)

text_less_trans :
    (r s t : Text) → text_less s r ≡ false → text_less t s ≡ false → text_less t r ≡ false
unfolding text_less
text_less_trans r [] [] h k = h
text_less_trans r (y ∷ s) [] h k = absurd (ground arith)
text_less_trans [] s (z ∷ t) h k = refl
text_less_trans (x ∷ r) [] (z ∷ t) h k = absurd (ground arith)
text_less_trans (x ∷ r) (y ∷ s) (z ∷ t) h k = ground (arith, text_less_trans r s t)

-- A host comes before one with a lower priority, or with the same one and a key that is not less.
abbrev pub IsBefore : Option HostEntry → Option HostEntry → Type 0
IsBefore (some a) (some b) =
    (b.priority < a.priority) ⊎ ((b.priority ≡ a.priority) × (text_less b.key a.key ≡ false))
IsBefore none (some b) = ⊥
IsBefore a none = Unit {0}

goes_first-IsBefore : (a b : Option HostEntry) → goes_first a b ≡ true → IsBefore a b
goes_first-IsBefore (some a) (some b) h = elim (Bool-cases (ltb b.priority a.priority)) [
  | inl higher ↦ inl (ltb→lt b.priority a.priority higher)
  | inr other ↦ inr (ground arith, text_less_not a.key b.key (ground arith))
]
goes_first-IsBefore (some a) none h = tt
goes_first-IsBefore none (some b) h = absurd (ground arith)
goes_first-IsBefore none none h = tt

IsBefore-else : (a b : Option HostEntry) → goes_first b a ≡ false → IsBefore a b
IsBefore-else (some a) (some b) h = elim (Bool-cases (ltb b.priority a.priority)) [
  | inl higher ↦ inl (ltb→lt b.priority a.priority higher)
  | inr other ↦ inr (ground arith, ground arith)
]
IsBefore-else (some a) none h = tt
IsBefore-else none (some b) h = absurd (ground arith)
IsBefore-else none none h = tt

IsBefore-trans : (a b c : Option HostEntry) → IsBefore a b → IsBefore b c → IsBefore a c
IsBefore-trans (some a) (some b) (some c) (inl h) (inl k) = inl (omega arith)
IsBefore-trans (some a) (some b) (some c) (inl h) (inr (e, k)) = inl (omega arith)
IsBefore-trans (some a) (some b) (some c) (inr (e, h)) (inl k) = inl (omega arith)
IsBefore-trans (some a) (some b) (some c) (inr (e, h)) (inr (f, k)) =
    inr (omega arith, text_less_trans a.key b.key c.key h k)
IsBefore-trans (some a) none (some c) h k = absurd k
IsBefore-trans none (some b) (some c) h k = absurd h
IsBefore-trans none none (some c) h k = absurd k
IsBefore-trans (some a) b none h k = tt
IsBefore-trans none b none h k = tt

-- The order of a plan is the keys of some of the hosts, each of them once, in descending order of
-- priority, and those of one priority in the order of their keys.
pub plan_strict_priority-IsOrdered :
    (hosts : List HostEntry) (plan : StrictPriorityPlan)
    → plan_strict_priority hosts ≡ some plan
    → (indices : List ℕ) × (plan.order ≡ map (key_at hosts) indices)
      × IsAll (λ x. x < length hosts) indices
      × IsOrdered ◌≢◌ indices
      × IsOrdered (λ x y. IsBefore (host_at hosts x) (host_at hosts y)) indices
unfolding plan_strict_priority order_of
plan_strict_priority-IsOrdered hosts plan e =
    let (result, found, _, once, in_range) = lowered_indices_lem hosts in
    let first = λ (x y : ℕ). goes_first (host_at hosts x) (host_at hosts y) in
    (
      order_of hosts result,
      same result (sym (ap (plan_of hosts) found) ∙ e),
      (IsAll-sorted first (λ x. x < length hosts) result).1 in_range,
      (sort_by-IsApart first ◌≢◌ (λ x y d f. d (sym f)) result).1 once,
      sort_by-IsOrdered first (λ x y. IsBefore (host_at hosts x) (host_at hosts y))
          (λ x y. goes_first-IsBefore (host_at hosts x) (host_at hosts y))
          (λ x y. IsBefore-else (host_at hosts x) (host_at hosts y))
          (λ x y z. IsBefore-trans (host_at hosts x) (host_at hosts y) (host_at hosts z)) result,
    )
  where
    same :
        (result : List ℕ)
        → plan_of hosts (some result) ≡ some plan
        → plan.order ≡ map (key_at hosts) (order_of hosts result)
    same result e = ground arith
