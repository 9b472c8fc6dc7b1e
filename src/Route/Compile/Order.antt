-- ===== src/Route/Compile/Order.antt =====
-- src/route/compile.ts, the order that `compileHostRoutes` gives.
use mathlib.Core.Path.{subst}
use barycenter.Prelude.{
  suc, ◌≡◌, refl, sym, ap, ◌∙◌, inl, inr, arith, Bool, List, [], ◌∷◌, ◌++◌, Bool-cases,
}
use barycenter.Prelude.Lists.{IsIn, IsAll, IsAll-weaken, IsAll-IsIn}
use barycenter.Prelude.Sorting.{insert_sorted, sort_by, sort_by-IsIn, IsOrdered, sort_by-IsApart}
use barycenter.Prelude.Text.{length}
use barycenter.Validate.Strings.{HostPlatform, HostPattern, Checked, ok, err, parse_host_pattern}
use barycenter.Route.Compile.{
  text_keys, compiled_as, add_parsed, RouteInput, CompiledRoute, CompileError, parse_routes,
  match_key, duplicates, key_less, host_priorities, route_first, ordered_routes, result_of,
  compile_host_routes,
}
use barycenter.Route.Compile.Tried.{
  IsApart, duplicates-nil, ordered_routes-IsTried, IsTriedBefore, IsOrdered-both,
}

result_of-IsOrdered :
    (errors others : List CompileError) (compiled : List CompiledRoute)
    → others ≡ duplicates (sort_by key_less compiled) []
    → IsOrdered IsTriedBefore (result_of (errors ++ others) compiled).order
result_of-IsOrdered (e ∷ errors) others compiled h = tt
result_of-IsOrdered [] (e ∷ others) compiled h = tt
result_of-IsOrdered [] [] compiled h =
    let (apart, _) = duplicates-nil (sort_by key_less compiled) [] (sym h) in
    let comm =
      λ (a b : CompiledRoute) (f : IsApart a b) (e : match_key b ≡ match_key a). f (sym e) in
    let before = (sort_by-IsApart key_less IsApart comm compiled).0 apart in
    let m = host_priorities compiled [] in
    IsOrdered-both m (ordered_routes compiled) (ordered_routes-IsTried compiled)
      ((sort_by-IsApart (route_first m) IsApart comm compiled).1 before)

length-insert_sorted :
    (less : CompiledRoute → CompiledRoute → Bool) (a : CompiledRoute) (bs : List CompiledRoute)
    → length (insert_sorted less a bs) ≡ suc (length bs)
unfolding insert_sorted
length-insert_sorted less a [] = refl
length-insert_sorted less a (b ∷ bs) = elim (Bool-cases (less b a)) [
  | inl before ↦ rw before (ap suc (length-insert_sorted less a bs))
  | inr after ↦ rw after refl
]

length-sort_by :
    (less : CompiledRoute → CompiledRoute → Bool) (cs : List CompiledRoute)
    → length (sort_by less cs) ≡ length cs
unfolding sort_by
length-sort_by less [] = refl
length-sort_by less (c ∷ cs) =
    length-insert_sorted less c (sort_by less cs) ∙ ap suc (length-sort_by less cs)

-- A route has been read.
abbrev IsRead : HostPlatform → List CompiledRoute → RouteInput → Type 0
IsRead p compiled r =
    (q : HostPattern) × (parse_host_pattern p r.host ≡ ok q) × IsIn (compiled_as r q) compiled

parse_routes-nil :
    (p : HostPlatform) (routes : List RouteInput)
    → (parse_routes p routes).0 ≡ []
    → (length (parse_routes p routes).1 ≡ length routes)
      × IsAll (IsRead p (parse_routes p routes).1) routes
unfolding parse_routes
parse_routes-nil p [] e = (refl, tt)
parse_routes-nil p (r ∷ routes) e =
    added (parse_host_pattern p r.host) refl (parse_routes-nil p routes) e
  where
    added :
        (parsed : Checked HostPattern)
        → parse_host_pattern p r.host ≡ parsed
        → ((parse_routes p routes).0 ≡ []
            → (length (parse_routes p routes).1 ≡ length routes)
              × IsAll (IsRead p (parse_routes p routes).1) routes)
        → (add_parsed r parsed (parse_routes p routes)).0 ≡ []
        → (length (add_parsed r parsed (parse_routes p routes)).1 ≡ suc (length routes))
          × IsAll (IsRead p (add_parsed r parsed (parse_routes p routes)).1) (r ∷ routes)
    added (ok pattern) here rest e =
        let (count, all) = rest e in
        (
          ap suc count,
          (
            (pattern, here, inl refl),
            IsAll-weaken (IsRead p (parse_routes p routes).1)
                (IsRead p (compiled_as r pattern ∷ (parse_routes p routes).1)) routes
                (λ s (q, good, m). (q, good, inr m)) all,
          ),
        )
    added (err x) here rest e = absurd (ground arith)

result_of-nil :
    (errors : List CompileError) (compiled : List CompiledRoute)
    → (result_of errors compiled).errors ≡ []
    → (errors ≡ []) × ((result_of errors compiled).order ≡ ordered_routes compiled)
result_of-nil [] compiled e = (refl, refl)
result_of-nil (x ∷ errors) compiled e = absurd (ground arith)

append-nil : (xs ys : List CompileError) → xs ++ ys ≡ [] → xs ≡ []
append-nil [] ys e = refl
append-nil (x ∷ xs) ys e = absurd (ground arith)

-- If `compileHostRoutes` finds no error, then each route's host has been read as a pattern and the
-- route is in the order, which is as long as the input; and in the order each route is tried before
-- all later ones: the class of a later one is not above, a later one of the same class with the same
-- pattern has no longer path, and no two have the same pattern and the same path.
pub compile_host_routes-IsOrdered :
    (p : HostPlatform) (routes : List RouteInput) (r : RouteInput)
    → IsIn r routes
    → (compile_host_routes p routes).errors ≡ []
    → (q : HostPattern) × (parse_host_pattern p r.host ≡ ok q)
      × IsIn (compiled_as r q) (compile_host_routes p routes).order
      × (length (compile_host_routes p routes).order ≡ length routes)
      × IsOrdered IsTriedBefore (compile_host_routes p routes).order
unfolding compile_host_routes
compile_host_routes-IsOrdered p routes r here e =
    let errors = (parse_routes p routes).0 in
    let compiled = (parse_routes p routes).1 in
    let others = duplicates (sort_by key_less compiled) [] in
    let (none_at_all, ordered) = result_of-nil (errors ++ others) compiled e in
    let (count, all) = parse_routes-nil p routes (append-nil errors others none_at_all) in
    let (q, good, m) = IsAll-IsIn (IsRead p compiled) r routes all here in
    let first = route_first (host_priorities compiled []) in
    (
      q,
      good,
      subst (λ l. IsIn (compiled_as r q) l) (sym ordered)
          ((sort_by-IsIn first (compiled_as r q) compiled).1 m),
      ap length ordered ∙ (length-sort_by first compiled ∙ count),
      result_of-IsOrdered errors others compiled refl,
    )
