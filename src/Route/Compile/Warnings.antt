-- ===== src/Route/Compile/Warnings.antt =====
-- src/route/compile.ts, the warnings of `analyze` against the hosts that routes match.
use barycenter.Prelude.{
  ℕ, ◌≡◌, ◌<◌, ◌↔◌, refl, sym, ap, ◌∙◌, inl, inr, arith, Bool, true, false, not, ◌&&◌, List, [],
  ◌∷◌, ◌++◌, leb, Bool-cases,
}
use barycenter.Prelude.Lists.{IsIn, IsIn-append, IsAll, IsAll-IsIn, IsAll-append}
use barycenter.Prelude.Sorting.{sort_by, IsAll-sorted}
use barycenter.Prelude.Text.{Text, starts_with}
use barycenter.Validate.Ip.{dot}
use barycenter.Validate.Strings.{HostPlatform, HostPattern, Checked, ok, err, parse_host_pattern}
use barycenter.Validate.Strings.Safe.{host_text, parse_host_pattern-IsHostText}
use barycenter.Route.{class_rank, patterns_conflict, text_less}
use barycenter.Route.Conflicts.{Matches, patterns_conflict_iff}
use barycenter.Route.Compile.{
  RouteInput, CompiledRoute, CompileWarning, priority_inversion, path_priority_ignored,
  CompileError, add_parsed, parse_routes, duplicates, key_less, route_first, host_priorities,
  is_inversion, inversion, inversions_of, inversions, is_path_ignored, path_ignored,
  path_warnings_of, path_warnings, analyze, ordered_routes, result_of, compile_host_routes,
}

-- The pattern's text does not start with a dot.
abbrev IsProper : CompiledRoute → Type 0
IsProper c = starts_with (dot ∷ []) (host_text c.pattern) ≡ false

parse_routes-IsProper :
    (p : HostPlatform) (routes : List RouteInput) → IsAll IsProper (parse_routes p routes).1
unfolding parse_routes
parse_routes-IsProper p [] = tt
parse_routes-IsProper p (r ∷ routes) =
    added (parse_host_pattern p r.host) (λ q e. (parse_host_pattern-IsHostText p r.host q e).2)
      (parse_routes-IsProper p routes)
  where
    added :
        (parsed : Checked HostPattern)
        → ((q : HostPattern) → parsed ≡ ok q → starts_with (dot ∷ []) (host_text q) ≡ false)
        → IsAll IsProper (parse_routes p routes).1
        → IsAll IsProper (add_parsed r parsed (parse_routes p routes)).1
    added (ok pattern) h k = (h pattern refl, k)
    added (err e) h k = k

inversions_of_iff :
    (hi : CompiledRoute) (los : List CompiledRoute) (w : CompileWarning)
    → (IsIn w (inversions_of hi los)) ↔ (
        (lo : CompiledRoute) × IsIn lo los
        × (is_inversion hi lo ≡ true)
        × (inversion hi.key lo.key ≡ w))
unfolding inversions_of
inversions_of_iff hi [] w = (λ h. absurd h, λ (lo, m, i, e). absurd m)
inversions_of_iff hi (x ∷ los) w = elim (Bool-cases (is_inversion hi x)) [
  | inl bad ↦ rw bad (
    λ h. elim h [
      | inl e ↦ (x, inl refl, bad, e)
      | inr r ↦ let (lo, m, i, e) = (inversions_of_iff hi los w).0 r in (lo, inr m, i, e)
    ],
    λ (lo, m, i, e). elim m [
      | inl same ↦ inl (ap (λ l. inversion hi.key l.key) same ∙ e)
      | inr r ↦ inr ((inversions_of_iff hi los w).1 (lo, r, i, e))
    ],
  )
  | inr fine ↦ rw fine (
    λ r. let (lo, m, i, e) = (inversions_of_iff hi los w).0 r in (lo, inr m, i, e),
    λ (lo, m, i, e). elim m [
      | inl same ↦ absurd (contra (sym (ap (is_inversion hi) same ∙ i) ∙ fine))
      | inr r ↦ (inversions_of_iff hi los w).1 (lo, r, i, e)
    ],
  )
]
  where
    contra : true ≡ false → ⊥
    contra e = cc

inversions_iff :
    (his order : List CompiledRoute) (w : CompileWarning)
    → (IsIn w (inversions his order)) ↔ (
        (hi : CompiledRoute) × (lo : CompiledRoute) × IsIn hi his
        × IsIn lo order
        × (is_inversion hi lo ≡ true)
        × (inversion hi.key lo.key ≡ w))
unfolding inversions
inversions_iff [] order w = (λ h. absurd h, λ (hi, lo, m, n, i, e). absurd m)
inversions_iff (x ∷ his) order w =
    let first = inversions_of_iff x order w in
    let rest = inversions_iff his order w in
    let both = IsIn-append w (inversions_of x order) (inversions his order) in
    (
      λ h. elim (both.0 h) [
        | inl f ↦ let (lo, n, i, e) = first.0 f in (x, lo, inl refl, n, i, e)
        | inr r ↦ let (hi, lo, m, n, i, e) = rest.0 r in (hi, lo, inr m, n, i, e)
      ],
      λ (hi, lo, m, n, i, e). both.1 (elim m [
        | inl same ↦ inl (
            first.1 (
              lo,
              n,
              ap (λ h. is_inversion h lo) same ∙ i,
              ap (λ h. inversion h.key lo.key) same ∙ e,
            ))
        | inr r ↦ inr (rest.1 (hi, lo, r, n, i, e))
      ]),
    )

path_ignored_kind : (a b : Text) → (path_ignored a b).kind ≡ path_priority_ignored
path_ignored_kind a b = elim (Bool-cases (text_less a b)) [ inl e ↦ rw e refl | inr e ↦ rw e refl ]

abbrev IsAboutPaths : CompileWarning → Type 0
IsAboutPaths w = w.kind ≡ path_priority_ignored

path_warnings_of-IsAboutPaths :
    (a : CompiledRoute) (bs : List CompiledRoute) → IsAll IsAboutPaths (path_warnings_of a bs)
unfolding path_warnings_of
path_warnings_of-IsAboutPaths a [] = tt
path_warnings_of-IsAboutPaths a (b ∷ bs) = elim (Bool-cases (is_path_ignored a b)) [
  | inl e ↦ rw e (path_ignored_kind a.key b.key, path_warnings_of-IsAboutPaths a bs)
  | inr e ↦ rw e (path_warnings_of-IsAboutPaths a bs)
]

path_warnings-IsAboutPaths : (order : List CompiledRoute) → IsAll IsAboutPaths (path_warnings order)
unfolding path_warnings
path_warnings-IsAboutPaths [] = tt
path_warnings-IsAboutPaths (a ∷ bs) =
    IsAll-append IsAboutPaths (path_warnings_of a bs) (path_warnings bs)
      (path_warnings_of-IsAboutPaths a bs) (path_warnings-IsAboutPaths bs)

-- Two routes, by their keys, such that the engine tries the class of the first before that of the
-- second, the priority of the first is lower, and some host is matched by both.
abbrev pub IsSurprise : List CompiledRoute → Text → Text → Type 0
IsSurprise order a b =
    (hi : CompiledRoute) × (lo : CompiledRoute) × IsIn hi order
    × IsIn lo order
    × (hi.key ≡ a)
    × (lo.key ≡ b)
    × (class_rank lo.match_class < class_rank hi.match_class)
    × (hi.priority < lo.priority)
    × (host : Text) × Matches hi.pattern host
    × Matches lo.pattern host

is_inversion_iff :
    (hi lo : CompiledRoute)
    → IsProper hi
    → IsProper lo
    → (is_inversion hi lo ≡ true) ↔ (
        (class_rank lo.match_class < class_rank hi.match_class)
        × (hi.priority < lo.priority)
        × (host : Text) × Matches hi.pattern host
        × Matches lo.pattern host)
is_inversion_iff hi lo h k =
    let c = patterns_conflict_iff hi.pattern lo.pattern h k in
    (
      λ e.
          let (r, (q, x)) =
            parts (class_rank hi.match_class) (class_rank lo.match_class) hi.priority lo.priority
              (patterns_conflict hi.pattern lo.pattern) e in
          let (host, m, n) = c.0 x in (r, q, host, m, n),
      λ (r, q, host, m, n). rw (c.1 (host, m, n)) (
          whole (class_rank hi.match_class) (class_rank lo.match_class) hi.priority lo.priority r
            q),
    )
  where
    parts :
        (x y p q : ℕ) (b : Bool)
        → (not (leb x y) && not (leb q p) && b) ≡ true
        → (y < x) × ((p < q) × (b ≡ true))
    parts x y p q b e = (ground arith, (ground arith, ground arith))

    whole : (x y p q : ℕ) → y < x → p < q → (not (leb x y) && not (leb q p) && true) ≡ true
    whole x y p q r s = ground arith

analyze_iff :
    (order : List CompiledRoute) (a b : Text)
    → IsAll IsProper order
    → (IsIn (inversion a b) (analyze order)) ↔ IsSurprise order a b
unfolding analyze
analyze_iff order a b proper =
    let both = IsIn-append (inversion a b) (inversions order order) (path_warnings order) in
    let pairs = inversions_iff order order (inversion a b) in
    (
      λ h. elim (both.0 h) [
        | inl i ↦
            let (hi, lo, m, n, bad, e) = pairs.0 i in
            let facts =
              is_inversion_iff hi lo (IsAll-IsIn IsProper hi order proper m)
                (IsAll-IsIn IsProper lo order proper n) in
            let (r, q, host, x, y) = facts.0 bad in
            (hi, lo, m, n, ap (λ w. w.first) e, ap (λ w. w.second) e, r, q, host, x, y)
        | inr w ↦ absurd (
            kinds (
              IsAll-IsIn IsAboutPaths (inversion a b) (path_warnings order)
                (path_warnings-IsAboutPaths order) w))
      ],
      λ (hi, lo, m, n, e, f, r, q, host, x, y).
          let iff =
            is_inversion_iff hi lo (IsAll-IsIn IsProper hi order proper m)
              (IsAll-IsIn IsProper lo order proper n) in
          both.1 (inl (pairs.1 (hi, lo, m, n, iff.1 (r, q, host, x, y), rw (e, f) refl))),
    )
  where
    kinds : priority_inversion ≡ path_priority_ignored → ⊥
    kinds e = ground arith

ordered_routes-IsProper :
    (compiled : List CompiledRoute)
    → IsAll IsProper compiled
    → IsAll IsProper (ordered_routes compiled)
ordered_routes-IsProper compiled h =
    (IsAll-sorted (route_first (host_priorities compiled [])) IsProper compiled).1 h

result_of_iff :
    (errors : List CompileError) (compiled : List CompiledRoute) (a b : Text)
    → IsAll IsProper compiled
    → (IsIn (inversion a b) (result_of errors compiled).warnings)
      ↔ IsSurprise (result_of errors compiled).order a b
result_of_iff [] compiled a b h =
    analyze_iff (ordered_routes compiled) a b (ordered_routes-IsProper compiled h)
result_of_iff (e ∷ errors) compiled a b h =
    (λ m. absurd m, λ (hi, lo, m, n, e, f, r, q, host, x, y). absurd m)

-- Whatever routes `compileHostRoutes` is given, it warns of an inversion between two keys exactly if
-- its order has routes with these keys such that the engine tries the class of the first before that
-- of the second, the priority of the first is the lower one, and some host is matched by both.
pub compile_host_routes_iff :
    (p : HostPlatform) (routes : List RouteInput) (a b : Text)
    → (IsIn (inversion a b) (compile_host_routes p routes).warnings)
      ↔ IsSurprise (compile_host_routes p routes).order a b
unfolding compile_host_routes
compile_host_routes_iff p routes a b =
    let compiled = (parse_routes p routes).1 in
    result_of_iff ((parse_routes p routes).0 ++ duplicates (sort_by key_less compiled) []) compiled
      a b (parse_routes-IsProper p routes)
