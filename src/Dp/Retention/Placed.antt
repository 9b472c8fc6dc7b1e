-- ===== src/Dp/Retention/Placed.antt =====
-- src/dp/retention.ts: where a candidate stands that is not among the newest, and since when it has
-- been inactive.
use mathlib.Core.Path.{subst}
use barycenter.Prelude.{
  IsAll, ℕ, ◌≡◌, ◌≤◌, refl, ap, false, Option, none, some, List, [], ◌∷◌, ◌++◌, ◌+◌, ◌-◌, arith,
  Bool-cases, inl, inr, ◌==◌, nat_eq,
}
use barycenter.Dp.Agent.Prune.{count_of, member}
use barycenter.Dp.Retention.{Candidate, skip, still_held, held_after}
use barycenter.Dp.Retention.Newest.{IsAll-skip, IsAll-with, IsNewestFirst}

-- At least `limit` others stand before a candidate, and all of them are at least as new; `before` is
-- the one of them next to it.
pub record IsBehind (limit : ℕ) (cs : List Candidate) (c : Candidate) : Type 0 where
  pub front : List Candidate
  pub before : Candidate
  pub rest : List Candidate
  pub placed : cs ≡ front ++ (before ∷ c ∷ rest)
  pub enough : limit ≤ count_of front + 1
  pub newer : IsAll (λ d. c.mtime ≤ d.mtime) (front ++ (before ∷ []))

IsBehind-cons :
    (limit n : ℕ) (b : Candidate) (cs : List Candidate) (c : Candidate)
    → n ≤ limit + 1
    → IsBehind limit cs c
    → c.mtime ≤ b.mtime
    → IsBehind n (b ∷ cs) c
IsBehind-cons limit n b cs c le h newer = record {
  front = b ∷ h.front;
  before = h.before;
  rest = h.rest;
  placed = ap (λ r. b ∷ r) h.placed;
  enough = omega (arith, le, h.enough);
  newer = (newer, h.newer);
}

IsAll-IsBehind :
    (b : Candidate) (cs : List Candidate) → IsNewestFirst (b ∷ cs) → IsAll (IsBehind 1 (b ∷ cs)) cs
IsAll-IsBehind b [] h = tt
IsAll-IsBehind b (c ∷ cs) ((newer, below), h) = (
  record {
    front = [];
    before = b;
    rest = cs;
    placed = refl;
    enough = omega arith;
    newer = (newer, tt);
  },
  IsAll-with (IsBehind 1 (c ∷ cs)) (λ d. d.mtime ≤ b.mtime) (IsBehind 1 (b ∷ c ∷ cs)) cs
      (λ d p q. IsBehind-cons 1 1 b (c ∷ cs) d (omega arith) p q) (IsAll-IsBehind c cs h) below,
)

-- What is left after the first ones stands behind them.
pub skip-IsBehind :
    (limit : ℕ) (cs : List Candidate)
    → (limit == 0) ≡ false
    → IsNewestFirst cs
    → IsAll (IsBehind limit cs) (skip limit cs)
unfolding skip
skip-IsBehind limit [] on h = tt
skip-IsBehind limit (c ∷ cs) on (below, h) = rw on (elim (Bool-cases (limit - 1 == 0)) [
  | inl one ↦
      let is_one : limit ≡ 1 = ground arith in
      rw is_one
        (subst (IsAll (IsBehind 1 (c ∷ cs))) (none_skipped cs) (IsAll-IsBehind c cs (below, h)))
  | inr more ↦
      IsAll-with (IsBehind (limit - 1) cs) (λ d. d.mtime ≤ c.mtime) (IsBehind limit (c ∷ cs))
        (skip (limit - 1) cs) (λ d p q. IsBehind-cons (limit - 1) limit c cs d (omega arith) p q)
        (skip-IsBehind (limit - 1) cs more h)
        (IsAll-skip (λ d. d.mtime ≤ c.mtime) (limit - 1) cs below)
])
  where
    none_skipped : (cs : List Candidate) → cs ≡ skip 0 cs
    none_skipped [] = refl
    none_skipped (c ∷ cs) = refl

-- A candidate became inactive when the one before it was made; that is at least the linger time ago,
-- if one is set.
abbrev pub HasLingered : ℕ → Option ℕ → Candidate → Type 0
HasLingered now none before = Unit {0}
HasLingered now (some linger) before = before.mtime + linger ≤ now

module _ (now linger : ℕ) where
  held_after-tail :
      (n : ℕ) (b d : Candidate) (ds : List Candidate)
      → member n (held_after now linger b (d ∷ ds)) ≡ false
      → member n (held_after now linger d ds) ≡ false
  unfolding held_after member
  held_after-tail n b d ds e = ground arith

  held_after-first :
      (b c : Candidate) (rest : List Candidate)
      → member c.name (held_after now linger b (c ∷ rest)) ≡ false
      → b.mtime + linger ≤ now
  unfolding held_after member
  held_after-first b c rest e = ground arith

  held_after-HasLingered :
      (a : Candidate) (front : List Candidate) (before c : Candidate) (rest : List Candidate)
      → member c.name (held_after now linger a (front ++ (before ∷ c ∷ rest))) ≡ false
      → before.mtime + linger ≤ now
  held_after-HasLingered a [] before c rest e =
      held_after-first before c rest (held_after-tail c.name a before (c ∷ rest) e)
  held_after-HasLingered a (b ∷ front) before c rest e =
      held_after-HasLingered b front before c rest
        (held_after-tail c.name a b (front ++ (before ∷ c ∷ rest)) e)

still_held-placed :
    (now : ℕ) (linger : Option ℕ) (front : List Candidate) (before c : Candidate)
    (rest : List Candidate)
    → member c.name (still_held now linger (front ++ (before ∷ c ∷ rest))) ≡ false
    → HasLingered now linger before
unfolding still_held
still_held-placed now none front before c rest e = tt
still_held-placed now (some linger) [] before c rest e = held_after-first now linger before c rest e
still_held-placed now (some linger) (b ∷ front) before c rest e =
    held_after-HasLingered now linger b front before c rest e

pub still_held-HasLingered :
    (now : ℕ) (linger : Option ℕ) (limit : ℕ) (cs : List Candidate) (c : Candidate)
    (h : IsBehind limit cs c)
    → member c.name (still_held now linger cs) ≡ false
    → HasLingered now linger h.before
still_held-HasLingered now linger limit cs c h e =
    still_held-placed now linger h.front h.before c h.rest
      (subst (λ l. member c.name (still_held now linger l) ≡ false) h.placed e)
