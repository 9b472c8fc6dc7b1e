-- ===== src/Route/Compile/Tried.antt =====
-- src/route/compile.ts, the comparison by which `compileHostRoutes` sorts, and its duplicates.
use barycenter.Prelude.{
  ℕ, ◌≡◌, ◌≢◌, ◌≤◌, ◌<◌, ◌⊎◌, refl, sym, ap, ◌∙◌, inl, inr, arith, Bool, true, false, ◌&&◌, ◌||◌,
  none, some, List, [], ◌∷◌, ltb, ◌==◌, Bool-cases, Assoc, lookup,
}
use barycenter.Prelude.Lists.{IsIn, IsAll, IsAll-weaken}
use barycenter.Prelude.Sorting.{IsOrdered, sort_by-IsOrdered}
use barycenter.Prelude.Text.{Text, length}
use barycenter.Validate.Strings.{HostPattern}
use barycenter.Validate.Strings.Header.{has_text}
use barycenter.Route.{class_rank, pattern_key, text_less}
use barycenter.Route.Strict.Keys.{has_text_iff}
use barycenter.Route.Compile.{
  text_keys, CompiledRoute, CompileError, duplicate_match, match_key, duplicates, host_priority,
  host_priorities, route_first, ordered_routes,
}

abbrev pub IsApart : CompiledRoute → CompiledRoute → Type 0
IsApart a b = match_key a ≢ match_key b

pub duplicates-nil :
    (cs : List CompiledRoute) (seen : List Text)
    → duplicates cs seen ≡ []
    → IsOrdered IsApart cs × IsAll (λ c. IsIn (match_key c) seen → ⊥) cs
unfolding duplicates
duplicates-nil [] seen e = (tt, tt)
duplicates-nil (c ∷ cs) seen e = elim (Bool-cases (has_text (match_key c) seen)) [
  | inl known ↦
      let error : CompileError = record { kind = duplicate_match; route = c.key } in
      let here : duplicates (c ∷ cs) seen ≡ error ∷ duplicates cs seen = rw known refl in
      absurd (cons_nil error (duplicates cs seen) (sym here ∙ e))
  | inr new ↦
      let here : duplicates (c ∷ cs) seen ≡ duplicates cs (match_key c ∷ seen) = rw new refl in
      let (apart, fresh) = duplicates-nil cs (match_key c ∷ seen) (sym here ∙ e) in
      (
        (
          IsAll-weaken (λ d. IsIn (match_key d) (match_key c ∷ seen) → ⊥) (IsApart c) cs
              (λ d f same. f (inl same)) fresh,
          apart,
        ),
        (
          λ m. contra (sym ((has_text_iff (match_key c) seen).1 m) ∙ new),
          IsAll-weaken (λ d. IsIn (match_key d) (match_key c ∷ seen) → ⊥)
              (λ d. IsIn (match_key d) seen → ⊥) cs (λ d f m. f (inr m)) fresh,
        ),
      )
]
  where
    contra : true ≡ false → ⊥
    contra e = cc

    cons_nil : (x : CompileError) (xs : List CompileError) → x ∷ xs ≡ [] → ⊥
    cons_nil x xs e = ground arith

-- By class, then by the host's priority, then the longer path.
abbrev pub IsTried : Assoc Text ℕ → CompiledRoute → CompiledRoute → Type 0
IsTried m a b =
    (class_rank b.match_class < class_rank a.match_class)
    ⊎ ((class_rank b.match_class ≡ class_rank a.match_class)
        × ((host_priority m b < host_priority m a)
            ⊎ ((host_priority m b ≡ host_priority m a)
                × (length b.path_prefix ≤ length a.path_prefix))))

abbrev IsLexed : ℕ → ℕ → ℕ → ℕ → ℕ → ℕ → Type 0
IsLexed x y p q k l = (y < x) ⊎ ((y ≡ x) × ((q < p) ⊎ ((q ≡ p) × (l ≤ k))))

IsLexed-of :
    (x y p q k l : ℕ) (b : Bool)
    → (ltb y x || (y == x) && (ltb q p || (q == p) && (ltb l k || (l == k) && b))) ≡ true
    → IsLexed x y p q k l
IsLexed-of x y p q k l b h = ground arith

IsLexed-else :
    (x y p q k l : ℕ) (b : Bool)
    → (ltb x y || (x == y) && (ltb p q || (p == q) && (ltb k l || (k == l) && b))) ≡ false
    → IsLexed x y p q k l
IsLexed-else x y p q k l b h = ground arith

IsLexed-trans :
    (x y z p q r k l n : ℕ) → IsLexed x y p q k l → IsLexed y z q r l n → IsLexed x z p r k n
IsLexed-trans x y z p q r k l n (inl h) (inl j) = inl (omega arith)
IsLexed-trans x y z p q r k l n (inl h) (inr (e, _)) = inl (omega arith)
IsLexed-trans x y z p q r k l n (inr (e, _)) (inl j) = inl (omega arith)
IsLexed-trans x y z p q r k l n (inr (e, inl h)) (inr (f, inl j)) =
    inr (omega arith, inl (omega arith))
IsLexed-trans x y z p q r k l n (inr (e, inl h)) (inr (f, inr (g, j))) =
    inr (omega arith, inl (omega arith))
IsLexed-trans x y z p q r k l n (inr (e, inr (g, h))) (inr (f, inl j)) =
    inr (omega arith, inl (omega arith))
IsLexed-trans x y z p q r k l n (inr (e, inr (g, h))) (inr (f, inr (i, j))) =
    inr (omega arith, inr (omega arith, omega arith))

pub ordered_routes-IsTried :
    (compiled : List CompiledRoute)
    → IsOrdered (IsTried (host_priorities compiled [])) (ordered_routes compiled)
ordered_routes-IsTried compiled =
    let m = host_priorities compiled [] in
    sort_by-IsOrdered (route_first m) (IsTried m)
      (λ a b h.
        IsLexed-of (class_rank a.match_class) (class_rank b.match_class) (host_priority m a)
          (host_priority m b) (length a.path_prefix) (length b.path_prefix) (text_less a.key b.key)
          h)
      (λ a b h.
        IsLexed-else (class_rank a.match_class) (class_rank b.match_class) (host_priority m a)
          (host_priority m b) (length a.path_prefix) (length b.path_prefix) (text_less b.key a.key)
          h)
      (λ a b c h k.
        IsLexed-trans (class_rank a.match_class) (class_rank b.match_class)
          (class_rank c.match_class) (host_priority m a) (host_priority m b) (host_priority m c)
          (length a.path_prefix) (length b.path_prefix) (length c.path_prefix) h k)
      compiled

-- The first route is tried before the second: its class is not below; within a class, for one pattern,
-- its path is not shorter; and the two do not match the same hosts and paths.
abbrev pub IsTriedBefore : CompiledRoute → CompiledRoute → Type 0
IsTriedBefore a b =
    (class_rank b.match_class ≤ class_rank a.match_class)
    × ((a.match_class ≢ b.match_class)
        ⊎ ((a.pattern ≢ b.pattern) ⊎ (length b.path_prefix ≤ length a.path_prefix)))
    × (((a.pattern ≡ b.pattern) × (a.path_prefix ≡ b.path_prefix)) → ⊥)

IsTried_lem :
    (m : Assoc Text ℕ) (a b : CompiledRoute) → IsTried m a b → IsApart a b → IsTriedBefore a b
IsTried_lem m a b h apart = (
  rank (class_rank a.match_class) (class_rank b.match_class) (host_priority m a) (host_priority m b)
      (length a.path_prefix) (length b.path_prefix) h,
  path h,
  λ (e, f). apart (rw (e, f) refl),
)
  where
    rank : (x y p q k l : ℕ) → IsLexed x y p q k l → y ≤ x
    rank x y p q k l (inl h) = omega arith
    rank x y p q k l (inr (e, _)) = omega arith

    priority_of : HostPattern → ℕ
    priority_of p = elim (lookup (pattern_key p) m) [ none ↦ 0 | some n ↦ n ]

    less_apart : (x y : ℕ) → y < x → x ≡ y → ⊥
    less_apart x y h e = omega arith

    path :
        IsTried m a b
        → (a.match_class ≢ b.match_class)
          ⊎ ((a.pattern ≢ b.pattern) ⊎ (length b.path_prefix ≤ length a.path_prefix))
    path (inl h) =
        inl (λ c.
          less_apart (class_rank a.match_class) (class_rank b.match_class) h (ap class_rank c))
    path (inr (e, inl h)) =
        inr (inl (λ q. less_apart (host_priority m a) (host_priority m b) h (ap priority_of q)))
    path (inr (e, inr (f, h))) = inr (inr h)

pub IsOrdered-both :
    (m : Assoc Text ℕ) (cs : List CompiledRoute)
    → IsOrdered (IsTried m) cs
    → IsOrdered IsApart cs
    → IsOrdered IsTriedBefore cs
IsOrdered-both m [] h k = tt
IsOrdered-both m (c ∷ cs) h k = (all cs h.0 k.0, IsOrdered-both m cs h.1 k.1)
  where
    all :
        (ds : List CompiledRoute)
        → IsAll (λ d. IsTried m c d) ds
        → IsAll (λ d. IsApart c d) ds
        → IsAll (λ d. IsTriedBefore c d) ds
    all [] h k = tt
    all (d ∷ ds) h k = (IsTried_lem m c d h.0 k.0, all ds h.1 k.1)
