-- ===== src/Route/Strict/Edges.antt =====
-- src/route/compile.ts, the two loops that fill the arrays of neighbours in `planStrictPriority`.
use mathlib.Core.Path.{subst}
use barycenter.Prelude.{
  ℕ, zero, suc, ◌+◌, ◌≡◌, ◌<◌, ◌↔◌, ◌⊎◌, refl, sym, inl, inr, arith, Bool, true, false, Option,
  none, some, List, [], ◌∷◌, ◌==◌, if◌then◌else◌, Bool-cases,
}
use barycenter.Prelude.Lists.{IsIn, IsIn-append}
use barycenter.Route.{patterns_conflict}
use barycenter.Route.Strict.{
  HostEntry, host_at, Adjacency, push_at, push_both, connect, connect_all,
}

-- The two indices, in either order.
abbrev pub IsPair : ℕ → ℕ → ℕ → ℕ → Type 0
IsPair i j x y = ((x ≡ i) × (y ≡ j)) ⊎ ((x ≡ j) × (y ≡ i))

push_at_iff :
    (i j : ℕ) (adj : Adjacency) (x y : ℕ)
    → (IsIn y (push_at i j adj x)) ↔ (IsIn y (adj x) ⊎ ((x ≡ i) × (y ≡ j)))
push_at_iff i j adj x y = elim (Bool-cases (x == i)) [
  | inl same ↦ rw same (
    λ h. elim ((IsIn-append y (adj x) (j ∷ [])).0 h) [
      | inl l ↦ inl l
      | inr (inl e) ↦ inr (at_index x i same, sym e)
      | inr (inr nothing) ↦ absurd nothing
    ],
    λ h.
        (IsIn-append y (adj x) (j ∷ [])).1
          (elim h [ inl l ↦ inl l | inr (_, e) ↦ inr (inl (sym e)) ]),
  )
  | inr other ↦
      rw other (λ h. inl h, λ h. elim h [ inl l ↦ l | inr (e, _) ↦ absurd (elsewhere x i other e) ])
]
  where
    at_index : (x i : ℕ) → (x == i) ≡ true → x ≡ i
    at_index x i h = ground arith

    elsewhere : (x i : ℕ) → (x == i) ≡ false → x ≡ i → ⊥
    elsewhere x i h e = ground arith

push_both_iff :
    (i j : ℕ) (adj : Adjacency) (x y : ℕ)
    → (IsIn y (push_both i j adj x)) ↔ (IsIn y (adj x) ⊎ IsPair i j x y)
push_both_iff i j adj x y = (
  λ h. elim ((push_at_iff j i (push_at i j adj) x y).0 h) [
    | inl first ↦ elim ((push_at_iff i j adj x y).0 first) [ inl l ↦ inl l | inr p ↦ inr (inl p) ]
    | inr p ↦ inr (inr p)
  ],
  λ h. (push_at_iff j i (push_at i j adj) x y).1 (elim h [
    | inl l ↦ inl ((push_at_iff i j adj x y).1 (inl l))
    | inr (inl p) ↦ inl ((push_at_iff i j adj x y).1 (inr p))
    | inr (inr p) ↦ inr p
  ]),
)

-- A host at some place, from an index on, that conflicts with a given one.
abbrev IsRival : ℕ → HostEntry → ℕ → List HostEntry → ℕ → ℕ → Type 0
IsRival i a j hosts x y =
    (k : ℕ) × (b : HostEntry) × (host_at hosts k ≡ some b)
    × (patterns_conflict a.pattern b.pattern ≡ true)
    × IsPair i (j + k) x y

IsRival-there :
    (i : ℕ) (a : HostEntry) (j : ℕ) (h : HostEntry) (hosts : List HostEntry) (x y : ℕ)
    → IsRival i a (suc j) hosts x y
    → IsRival i a j (h ∷ hosts) x y
IsRival-there i a j h hosts x y (k, b, e, c, p) =
    (suc k, b, e, c, subst (λ n. IsPair i n x y) (omega arith) p)

connect_iff :
    (i : ℕ) (a : HostEntry) (j : ℕ) (hosts : List HostEntry) (adj : Adjacency) (x y : ℕ)
    → (IsIn y (connect i a j hosts adj x)) ↔ (IsIn y (adj x) ⊎ IsRival i a j hosts x y)
unfolding connect
connect_iff i a j [] adj x y =
    (λ h. inl h, λ h. elim h [ inl l ↦ l | inr (k, b, e, r, p) ↦ absurd (nobody b e) ])
  where
    nobody : (b : HostEntry) → ◌≡◌ {A = Option HostEntry} none (some b) → ⊥
    nobody b e = ground arith
connect_iff i a j (h ∷ hosts) adj x y =
    let c = patterns_conflict a.pattern h.pattern in
    let later = connect_iff i a (suc j) hosts (if c then push_both i j adj else adj) x y in
    (
      λ m. elim (later.0 m) [
        | inr (k, b, e, r, p) ↦ inr (IsRival-there i a j h hosts x y (k, b, e, r, p))
        | inl now ↦ elim (Bool-cases c) [
          | inl yes_ ↦
              elim ((push_both_iff i j adj x y).0
                (subst (λ r. IsIn y ((if r then push_both i j adj else adj) x)) yes_ now)) [
                  | inl l ↦ inl l
                  | inr p ↦ inr (0, h, refl, yes_, subst (λ n. IsPair i n x y) (omega arith) p)
                ]
          | inr no_ ↦ inl (subst (λ r. IsIn y ((if r then push_both i j adj else adj) x)) no_ now)
        ]
      ],
      λ m. later.1 (elim m [
        | inl l ↦ inl (kept c (λ k. (push_both_iff i j adj x y).1 (inl k)) l)
        | inr (zero, b, e, r, p) ↦ inl (
            subst (λ r. IsIn y ((if r then push_both i j adj else adj) x)) (sym (here b e r))
              ((push_both_iff i j adj x y).1 (inr (subst (λ n. IsPair i n x y) (omega arith) p))))
        | inr (suc k, b, e, r, p) ↦ inr (k, b, e, r, subst (λ n. IsPair i n x y) (omega arith) p)
      ]),
    )
  where
    kept :
        (c : Bool)
        → (IsIn y (adj x) → IsIn y (push_both i j adj x))
        → IsIn y (adj x)
        → IsIn y ((if c then push_both i j adj else adj) x)
    kept true f l = f l
    kept false f l = l

    here :
        (b : HostEntry)
        → some h ≡ some b
        → patterns_conflict a.pattern b.pattern ≡ true
        → patterns_conflict a.pattern h.pattern ≡ true
    here b e r = rw (found b e) r
      where
        found : (b : HostEntry) → some h ≡ some b → h ≡ b
        found b e = ground arith

-- Two places, in ascending order, whose hosts conflict.
abbrev pub IsContest : ℕ → List HostEntry → ℕ → ℕ → Type 0
IsContest i hosts x y =
    (k : ℕ) × (l : ℕ) × (a : HostEntry) × (b : HostEntry) × (k < l)
    × (host_at hosts k ≡ some a)
    × (host_at hosts l ≡ some b)
    × (patterns_conflict a.pattern b.pattern ≡ true)
    × IsPair (i + k) (i + l) x y

IsContest-cons :
    (i : ℕ) (h : HostEntry) (hosts : List HostEntry) (x y : ℕ)
    → (IsContest i (h ∷ hosts) x y) ↔ (IsRival i h (suc i) hosts x y ⊎ IsContest (suc i) hosts x y)
IsContest-cons i h hosts x y = (
  λ c. to c,
  λ d. elim d [
    | inl (k, b, e, r, p) ↦ (
      0,
      suc k,
      h,
      b,
      omega arith,
      refl,
      e,
      r,
      subst (λ m. IsPair m (i + suc k) x y) (omega arith)
          (subst (λ n. IsPair i n x y) (omega arith) p),
    )
    | inr (k, l, a, b, s, e, f, r, p) ↦ (
      suc k,
      suc l,
      a,
      b,
      omega arith,
      e,
      f,
      r,
      subst (λ m. IsPair m (i + suc l) x y) (omega arith)
          (subst (λ n. IsPair (suc i + k) n x y) (omega arith) p),
    )
  ],
)
  where
    first : (a : HostEntry) → some h ≡ some a → h ≡ a
    first a e = ground arith

    to : IsContest i (h ∷ hosts) x y → IsRival i h (suc i) hosts x y ⊎ IsContest (suc i) hosts x y
    to (zero, zero, a, b, s, e, f, r, p) = absurd (omega arith)
    to (suc k, zero, a, b, s, e, f, r, p) = absurd (omega arith)
    to (zero, suc l, a, b, s, e, f, r, p) = inl (
      l,
      b,
      f,
      rw (first a e) r,
      subst (λ m. IsPair m (suc i + l) x y) (omega arith)
          (subst (λ n. IsPair (i + 0) n x y) (omega arith) p),
    )
    to (suc k, suc l, a, b, s, e, f, r, p) = inr (
      k,
      l,
      a,
      b,
      omega arith,
      e,
      f,
      r,
      subst (λ m. IsPair m (suc i + l) x y) (omega arith)
          (subst (λ n. IsPair (i + suc k) n x y) (omega arith) p),
    )

pub connect_all_iff :
    (i : ℕ) (hosts : List HostEntry) (adj : Adjacency) (x y : ℕ)
    → (IsIn y (connect_all i hosts adj x)) ↔ (IsIn y (adj x) ⊎ IsContest i hosts x y)
unfolding connect_all
connect_all_iff i [] adj x y =
    (λ h. inl h, λ h. elim h [ inl l ↦ l | inr (k, l, a, b, s, e, f, r, p) ↦ absurd (nobody a e) ])
  where
    nobody : (b : HostEntry) → ◌≡◌ {A = Option HostEntry} none (some b) → ⊥
    nobody b e = ground arith
connect_all_iff i (h ∷ hosts) adj x y =
    let later = connect_all_iff (suc i) hosts (connect i h (suc i) hosts adj) x y in
    let now = connect_iff i h (suc i) hosts adj x y in
    let both = IsContest-cons i h hosts x y in
    (
      λ m. elim (later.0 m) [
        | inl c ↦ elim (now.0 c) [ inl l ↦ inl l | inr r ↦ inr (both.1 (inl r)) ]
        | inr c ↦ inr (both.1 (inr c))
      ],
      λ m. later.1 (elim m [
        | inl l ↦ inl (now.1 (inl l))
        | inr c ↦ elim (both.0 c) [ inl r ↦ inl (now.1 (inr r)) | inr d ↦ inr d ]
      ]),
    )
