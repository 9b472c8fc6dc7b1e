-- ===== src/Route/Strict/Lowered.antt =====
-- src/route/compile.ts, which hosts `planStrictPriority` lowers.
use mathlib.Core.Path.{subst}
use barycenter.Prelude.Sorting.{IsOrdered, IsOrdered-append}
use barycenter.Prelude.{
  ◌≢◌, ℕ, zero, suc, ◌+◌, ◌≡◌, ◌≤◌, ◌<◌, ◌↔◌, refl, sym, ◌∙◌, inl, inr, arith, Bool, true, false,
  some, List, [], ◌∷◌, ◌++◌, if◌then◌else◌, Bool-cases,
}
use barycenter.Prelude.Lists.{IsAll-of, IsIn, IsIn-append, IsAll, any, any_iff}
use barycenter.Prelude.Text.{length}
use barycenter.Route.Strict.{
  HostEntry, host_at, adjacency, has, is_inverted_pair, is_inverted, lower_from, indices_from,
  lowered_indices,
}
use barycenter.Route.Strict.Graph.{Contends, Contends-comm, adjacency_iff, adjacency-length}
use barycenter.Route.Strict.Search.{Near, IsClosed, Component, search_from_lem}
use barycenter.Route.Strict.Visit.{has_iff}
use barycenter.Route.Strict.Links.{Linked, at_start, along, Linked-trans, Linked-comm}

module _ (hosts : List HostEntry) where
  back : (x y : ℕ) → IsIn y (adjacency hosts x) → IsIn x (adjacency hosts y)
  back x y m = (adjacency_iff hosts y x).1 (Contends-comm hosts x y ((adjacency_iff hosts x y).0 m))

  -- An index from which two hosts can be reached by conflicts such that the class of one comes before
  -- the other's, but its priority is lower.
  abbrev pub IsBeaten : ℕ → Type 0
  IsBeaten x =
      (i : ℕ) × (j : ℕ) × Linked (Contends hosts) x i
      × Linked (Contends hosts) x j
      × (is_inverted_pair (host_at hosts i) (host_at hosts j) ≡ true)

  Near-Contends : (x y : ℕ) → Linked (Near (adjacency hosts)) x y → Linked (Contends hosts) x y
  Near-Contends _ _ (at_start x) = at_start x
  Near-Contends _ _ (along x y z r k) =
      along x y z ((adjacency_iff hosts x y).0 r) (Near-Contends y z k)

  Contends-Near : (x y : ℕ) → Linked (Contends hosts) x y → Linked (Near (adjacency hosts)) x y
  Contends-Near _ _ (at_start x) = at_start x
  Contends-Near _ _ (along x y z r k) =
      along x y z ((adjacency_iff hosts x y).1 r) (Contends-Near y z k)

  is_inverted_iff :
      (s : ℕ) (old found reached : List ℕ)
      → Component (adjacency hosts) s old found reached
      → (is_inverted hosts found ≡ true) ↔ IsBeaten s
  is_inverted_iff s old found reached c = (
    λ h.
        let (i, here, rest) = (any_iff outer found).0 h in
        let (j, there, pair) = (any_iff (inner i) found).0 rest in
        (
          i,
          j,
          Near-Contends s i ((c.all_linked i).0 here),
          Near-Contends s j ((c.all_linked j).0 there),
          pair,
        ),
    λ (i, j, k, l, pair). (any_iff outer found).1 (
      i,
      (c.all_linked i).1 (Contends-Near s i k),
      (any_iff (inner i) found).1 (j, (c.all_linked j).1 (Contends-Near s j l), pair),
    ),
  )
    where
      inner : ℕ → ℕ → Bool
      inner i j = is_inverted_pair (host_at hosts i) (host_at hosts j)

      outer : ℕ → Bool
      outer i = any (λ j. is_inverted_pair (host_at hosts i) (host_at hosts j)) found

  pub IsBeaten-Linked : (s x : ℕ) → Linked (Contends hosts) s x → IsBeaten s → IsBeaten x
  IsBeaten-Linked s x k (i, j, l, m, pair) =
      let b = Linked-comm (Contends hosts) (Contends-comm hosts) s x k in
      (i, j, Linked-trans (Contends hosts) x s i b l, Linked-trans (Contends hosts) x s j b m, pair)

  -- What the loop over the indices keeps.
  record Lowering (seen lowered : List ℕ) : Type 0 where
    pub closed : IsClosed (adjacency hosts) seen
    pub once : IsOrdered ◌≢◌ lowered
    pub in_range : (x : ℕ) → IsIn x seen → x < length hosts
    pub lowers : (x : ℕ) → (IsIn x lowered) ↔ (IsIn x seen × IsBeaten x)

  Linked-length :
      (s x : ℕ) → Linked (Near (adjacency hosts)) s x → s < length hosts → x < length hosts
  Linked-length _ _ (at_start x) small = small
  Linked-length _ _ (along x y z r k) small = Linked-length y z k (adjacency-length hosts x y r)

  Lowering-step :
      (s : ℕ) (seen lowered found reached : List ℕ)
      → s < length hosts
      → Lowering seen lowered
      → Component (adjacency hosts) s seen found reached
      → Lowering reached (if is_inverted hosts found then lowered ++ found else lowered)
  Lowering-step s seen lowered found reached small h c = record {
    closed = λ x y m r. (c.all_seen y).1 (elim ((c.all_seen x).0 m) [
      | inl o ↦ inl (h.closed x y o r)
      | inr f ↦ inr (
          (c.all_linked y).1 (
            Linked-trans (Near (adjacency hosts)) s x y ((c.all_linked x).0 f)
              (along x y y r (at_start y))))
    ]);
    once = elim (Bool-cases (is_inverted hosts found)) [
      | inl bad ↦ rw bad (
          IsOrdered-append ◌≢◌ lowered found h.once c.once
            (λ x m y k e. c.unseen_before y k (subst (λ z. IsIn z seen) e ((h.lowers x).0 m).0)))
      | inr fine ↦ rw fine h.once
    ];
    in_range = λ x m. elim ((c.all_seen x).0 m) [
      | inl o ↦ h.in_range x o
      | inr f ↦ Linked-length s x ((c.all_linked x).0 f) small
    ];
    lowers = elim (Bool-cases (is_inverted hosts found)) [
      | inl bad ↦
          let beaten = (is_inverted_iff s seen found reached c).0 bad in
          rw bad (λ x. (
            λ m. elim ((IsIn-append x lowered found).0 m) [
              | inl l ↦ ((c.all_seen x).1 (inl ((h.lowers x).0 l).0), ((h.lowers x).0 l).1)
              | inr f ↦ (
                (c.all_seen x).1 (inr f),
                IsBeaten-Linked s x (Near-Contends s x ((c.all_linked x).0 f)) beaten,
              )
            ],
            λ (m, b).
                (IsIn-append x lowered found).1 (elim ((c.all_seen x).0 m) [
                  | inl o ↦ inl ((h.lowers x).1 (o, b))
                  | inr f ↦ inr f
                ]),
          ))
      | inr fine ↦ rw fine (λ x. (
        λ l. ((c.all_seen x).1 (inl ((h.lowers x).0 l).0), ((h.lowers x).0 l).1),
        λ (m, b). elim ((c.all_seen x).0 m) [
          | inl o ↦ (h.lowers x).1 (o, b)
          | inr f ↦
              let k =
                Linked-comm (Contends hosts) (Contends-comm hosts) s x
                  (Near-Contends s x ((c.all_linked x).0 f)) in
              absurd (
                contra (
                  sym ((is_inverted_iff s seen found reached c).1 (IsBeaten-Linked x s k b))
                  ∙ fine))
        ],
      ))
    ];
  }
    where
      contra : true ≡ false → ⊥
      contra e = cc

  lower_from-Lowering :
      (indices seen lowered : List ℕ)
      → IsAll (λ s. s < length hosts) indices
      → Lowering seen lowered
      → (result : List ℕ) × (final : List ℕ) × (lower_from hosts indices seen lowered ≡ some result)
        × Lowering final result
        × ((x : ℕ) → IsIn x seen → IsIn x final)
        × ((x : ℕ) → IsIn x indices → IsIn x final)
  unfolding lower_from
  lower_from-Lowering [] seen lowered small h =
      (lowered, seen, refl, h, (λ x m. m), (λ x m. absurd m))
  lower_from-Lowering (s ∷ indices) seen lowered small h = elim (Bool-cases (has s seen)) [
    | inl known ↦
        let (result, final, e, l, kept, all) = lower_from-Lowering indices seen lowered small.1 h in
        let here : lower_from hosts (s ∷ indices) seen lowered
            ≡ lower_from hosts indices seen lowered =
          rw (known, lower_from) refl in
        (
          result,
          final,
          here ∙ e,
          l,
          kept,
          (λ x m. elim m [
            | inl same ↦ subst (λ y. IsIn y final) same (kept s ((has_iff s seen).0 known))
            | inr r ↦ all x r
          ]),
        )
    | inr new ↦
        let (found, reached, searched, c) =
          search_from_lem (adjacency hosts) (length hosts) (adjacency-length hosts) back s seen
            small.0 h.closed new in
        let more = if is_inverted hosts found then lowered ++ found else lowered in
        let (result, final, e, l, kept, all) =
          lower_from-Lowering indices reached more small.1
            (Lowering-step s seen lowered found reached small.0 h c) in
        let here : lower_from hosts (s ∷ indices) seen lowered
            ≡ lower_from hosts indices reached more =
          rw (new, lower_from) (rw searched refl) in
        (
          result,
          final,
          here ∙ e,
          l,
          (λ x m. kept x ((c.all_seen x).1 (inl m))),
          (λ x m. elim m [
            | inl same ↦
                subst (λ y. IsIn y final) same
                  (kept s ((c.all_seen s).1 (inr ((c.all_linked s).1 (at_start s)))))
            | inr r ↦ all x r
          ]),
        )
  ]

indices_from-IsAll :
    (i n : ℕ) (hosts : List HostEntry)
    → i + length hosts ≤ n
    → IsAll (λ s. s < n) (indices_from i hosts)
indices_from-IsAll i n [] h = tt
indices_from-IsAll i n (x ∷ hosts) h =
    (omega arith, indices_from-IsAll (suc i) n hosts (omega arith))

indices_from-IsIn :
    (i x : ℕ) (hosts : List HostEntry) → x < length hosts → IsIn (i + x) (indices_from i hosts)
indices_from-IsIn i x [] h = absurd (omega arith)
indices_from-IsIn i zero (y ∷ hosts) h = inl (omega arith)
indices_from-IsIn i (suc x) (y ∷ hosts) h = inr (
    subst (λ n. IsIn n (indices_from (suc i) hosts)) (omega arith)
      (indices_from-IsIn (suc i) x hosts (omega arith)))

pub lowered_indices_lem :
    (hosts : List HostEntry)
    → (result : List ℕ) × (lowered_indices hosts ≡ some result)
      × ((x : ℕ) → x < length hosts → (IsIn x result) ↔ IsBeaten hosts x)
      × IsOrdered ◌≢◌ result
      × IsAll (λ x. x < length hosts) result
lowered_indices_lem hosts =
    let begun : Lowering hosts [] [] = record {
      closed = λ x y m r. absurd m;
      once = tt;
      in_range = λ x m. absurd m;
      lowers = λ x. (λ m. absurd m, λ (m, b). absurd m);
    } in
    let (result, final, e, l, _, all) =
      lower_from-Lowering hosts (indices_from 0 hosts) [] []
        (indices_from-IsAll 0 (length hosts) hosts (omega arith)) begun in
    (
      result,
      e,
      λ x h. (
        λ m. ((l.lowers x).0 m).1,
        λ b. (l.lowers x).1 (
          all x (
              subst (λ n. IsIn n (indices_from 0 hosts)) (omega arith)
                (indices_from-IsIn 0 x hosts h)),
          b,
        ),
      ),
      l.once,
      IsAll-of (λ x. x < length hosts) result (λ x m. l.in_range x ((l.lowers x).0 m).0),
    )
