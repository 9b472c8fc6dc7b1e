-- ===== src/Route/Strict/Graph.antt =====
-- src/route/compile.ts, the arrays of neighbours that `planStrictPriority` fills.
use mathlib.Core.Path.{subst}
use barycenter.Prelude.{
  ℕ, zero, suc, ◌+◌, ◌≡◌, ◌≢◌, ◌<◌, ◌↔◌, refl, sym, ◌∙◌, inl, inr, arith, true, false, some, List,
  [], ◌∷◌, ltb, Bool-cases,
}
use barycenter.Prelude.Lists.{IsIn}
use barycenter.Prelude.Text.{length}
use barycenter.Validate.Strings.{exact, wildcard, HostPattern}
use barycenter.Validate.Contention.{text_eq_comm}
use barycenter.Route.{patterns_conflict}
use barycenter.Route.Strict.{HostEntry, host_at, adjacency}
use barycenter.Route.Strict.Edges.{IsContest, connect_all_iff}

patterns_conflict_comm : (p q : HostPattern) → patterns_conflict p q ≡ patterns_conflict q p
unfolding patterns_conflict
patterns_conflict_comm (exact g) (exact h) = text_eq_comm g h
patterns_conflict_comm (wildcard s) (wildcard t) = text_eq_comm s t
patterns_conflict_comm (exact h) (wildcard s) = refl
patterns_conflict_comm (wildcard s) (exact h) = refl

-- Two indices of different hosts that conflict.
abbrev pub Contends : List HostEntry → ℕ → ℕ → Type 0
Contends hosts x y =
    (a : HostEntry) × (b : HostEntry) × (x ≢ y)
    × (host_at hosts x ≡ some a)
    × (host_at hosts y ≡ some b)
    × (patterns_conflict a.pattern b.pattern ≡ true)

pub Contends-comm : (hosts : List HostEntry) (x y : ℕ) → Contends hosts x y → Contends hosts y x
Contends-comm hosts x y (a, b, apart, e, f, r) =
    (b, a, λ s. apart (sym s), f, e, patterns_conflict_comm b.pattern a.pattern ∙ r)

pub adjacency_iff :
    (hosts : List HostEntry) (x y : ℕ) → (IsIn y (adjacency hosts x)) ↔ Contends hosts x y
adjacency_iff hosts x y = (
  λ h. elim ((connect_all_iff 0 hosts (λ k. []) x y).0 h) [
    | inl nothing ↦ absurd nothing
    | inr (k, l, a, b, s, e, f, r, inl (here, there)) ↦
        (a, b, omega arith, at_zero k x a here e, at_zero l y b there f, r)
    | inr (k, l, a, b, s, e, f, r, inr (here, there)) ↦ (
      b,
      a,
      omega arith,
      at_zero l x b here f,
      at_zero k y a there e,
      patterns_conflict_comm b.pattern a.pattern ∙ r,
    )
  ],
  λ c. (connect_all_iff 0 hosts (λ k. []) x y).1 (inr (contest c)),
)
  where
    at_zero :
        (k x : ℕ) (h : HostEntry) → x ≡ 0 + k → host_at hosts k ≡ some h → host_at hosts x ≡ some h
    at_zero k x h here e = subst (λ n. host_at hosts n ≡ some h) (omega arith) e

    from_zero : (n : ℕ) → n ≡ 0 + n
    from_zero n = omega arith

    contest : Contends hosts x y → IsContest 0 hosts x y
    contest (a, b, apart, e, f, r) = elim (Bool-cases (ltb x y)) [
      | inl below ↦ (x, y, a, b, lower x y below, e, f, r, inl (from_zero x, from_zero y))
      | inr above ↦ (
        y,
        x,
        b,
        a,
        higher x y above apart,
        f,
        e,
        patterns_conflict_comm b.pattern a.pattern ∙ r,
        inr (from_zero x, from_zero y),
      )
    ]
      where
        lower : (x y : ℕ) → ltb x y ≡ true → x < y
        lower x y h = ground arith

        higher : (x y : ℕ) → ltb x y ≡ false → x ≢ y → y < x
        higher x y h k = ground arith

pub host_at-length :
    (hosts : List HostEntry) (i : ℕ) (h : HostEntry) → host_at hosts i ≡ some h → i < length hosts
host_at-length [] i h e = absurd (ground arith)
host_at-length (x ∷ hosts) zero h e = omega arith
host_at-length (x ∷ hosts) (suc i) h e = omega (arith, host_at-length hosts i h e)

pub adjacency-length :
    (hosts : List HostEntry) (x y : ℕ) → IsIn y (adjacency hosts x) → y < length hosts
adjacency-length hosts x y h =
    let (a, b, _, _, there, _) = (adjacency_iff hosts x y).0 h in host_at-length hosts y b there
