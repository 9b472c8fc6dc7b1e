-- ===== src/Route/Tests.antt =====
-- src/route/compile.ts: small lists of routes and hosts.
use barycenter.Prelude.{
  ◌≢◌, ◌<◌, ℕ, ◌≡◌, ◌↔◌, refl, inl, none, some, List, [], ◌∷◌, map, lookup, insert,
}
use barycenter.Prelude.Lists.{IsAll, IsIn}
use barycenter.Prelude.Sorting.{IsOrdered, insert_sorted, sort_by}
use barycenter.Prelude.Text.{Text, length, split}
use barycenter.Validate.Ip.{dot}
use barycenter.Validate.Strings.{
  HostPattern, exact, wildcard, ok, star, normalize_host, parse_host_pattern, before_end,
}
use barycenter.Validate.Strings.Tests.{ascii_platform}
use barycenter.Route.{patterns_conflict, text_less, pattern_key}
use barycenter.Route.Compile.{
  RouteInput, compiled_as, inversion, inversions_of, inversions, path_warnings_of, path_warnings,
  analyze, duplicates, host_priorities, parse_routes, compile_host_routes,
}
use barycenter.Route.Compile.Warnings.{IsSurprise, compile_host_routes_iff}
use barycenter.Route.Compile.Order.{compile_host_routes-IsOrdered}
use barycenter.Route.Compile.Tried.{IsTriedBefore}
use barycenter.Route.Strict.{
  HostEntry, host_at, connect, connect_all, visit, search_from, lower_from, key_at, order_of,
  StrictPriorityPlan, plan_strict_priority,
}
use barycenter.Route.Strict.Lowered.{IsBeaten}
use barycenter.Route.Strict.Keys.{plan_strict_priority_iff}
use barycenter.Route.Strict.Order.{IsBefore, plan_strict_priority-IsOrdered}

-- `x.a` with priority 1 and `*.a` with priority 5, and a host apart.
abbrev name_a : Text
name_a = 97 ∷ []

abbrev host_a : Text
host_a = 120 ∷ dot ∷ name_a

abbrev exact_route : RouteInput
exact_route = record { key = 49 ∷ []; host = host_a; priority = 1; path_prefix = none }

abbrev wildcard_route : RouteInput
wildcard_route = record {
  key = 50 ∷ [];
  host = star ∷ dot ∷ name_a;
  priority = 5;
  path_prefix = none;
}

abbrev two_routes : List RouteInput
two_routes = exact_route ∷ wildcard_route ∷ []

abbrev three_hosts : List HostEntry
three_hosts =
    record { key = 49 ∷ []; pattern = exact host_a; priority = 1 }
    ∷ record { key = 50 ∷ []; pattern = wildcard name_a; priority = 5 }
    ∷ record { key = 51 ∷ []; pattern = exact name_a; priority = 3 }
    ∷ []

abbrev lowered_two : StrictPriorityPlan
lowered_two = record {
  lowered = pattern_key (exact host_a) ∷ pattern_key (wildcard name_a) ∷ [];
  order = pattern_key (wildcard name_a) ∷ pattern_key (exact host_a) ∷ [];
}

compile_two :
    (compile_host_routes ascii_platform two_routes).order
    ≡ compiled_as exact_route (exact host_a) ∷ compiled_as wildcard_route (wildcard name_a) ∷ []
unfolding compile_host_routes parse_routes parse_host_pattern normalize_host split duplicates
    text_less insert_sorted sort_by host_priorities lookup insert
compile_two = refl

compile_two_warnings :
    (compile_host_routes ascii_platform two_routes).warnings ≡ inversion (49 ∷ []) (50 ∷ []) ∷ []
unfolding compile_host_routes parse_routes parse_host_pattern normalize_host split duplicates
    text_less insert_sorted sort_by host_priorities lookup insert analyze inversions inversions_of
    path_warnings path_warnings_of patterns_conflict before_end
compile_two_warnings = refl

compile_two_errors : (compile_host_routes ascii_platform two_routes).errors ≡ []
unfolding compile_host_routes parse_routes parse_host_pattern normalize_host split duplicates
    text_less insert_sorted sort_by
compile_two_errors = refl

warned :
    IsIn (inversion (49 ∷ []) (50 ∷ [])) (compile_host_routes ascii_platform two_routes).warnings
unfolding compile_host_routes parse_routes parse_host_pattern normalize_host split duplicates
    text_less insert_sorted sort_by host_priorities lookup insert analyze inversions inversions_of
    path_warnings path_warnings_of patterns_conflict before_end
warned = inl refl

plan_three : plan_strict_priority three_hosts ≡ some lowered_two
unfolding plan_strict_priority order_of lower_from search_from visit connect connect_all
    insert_sorted sort_by patterns_conflict before_end text_less
plan_three = refl

compile_host_routes_iff_example :
    IsSurprise (compile_host_routes ascii_platform two_routes).order (49 ∷ []) (50 ∷ [])
compile_host_routes_iff_example =
    (compile_host_routes_iff ascii_platform two_routes (49 ∷ []) (50 ∷ [])).0 warned

compile_host_routes-IsOrdered_example :
    (q : HostPattern) × (parse_host_pattern ascii_platform host_a ≡ ok q)
    × IsIn (compiled_as exact_route q) (compile_host_routes ascii_platform two_routes).order
    × (length (compile_host_routes ascii_platform two_routes).order ≡ 2)
    × IsOrdered IsTriedBefore (compile_host_routes ascii_platform two_routes).order
compile_host_routes-IsOrdered_example =
    compile_host_routes-IsOrdered ascii_platform two_routes exact_route (inl refl)
      compile_two_errors

plan_strict_priority_iff_example :
    (plan : StrictPriorityPlan) × (plan_strict_priority three_hosts ≡ some plan)
    × ((IsIn (61 ∷ host_a) plan.lowered) ↔ IsBeaten three_hosts 0)
    × ((IsIn (61 ∷ host_a) plan.order) ↔ IsBeaten three_hosts 0)
plan_strict_priority_iff_example =
    plan_strict_priority_iff three_hosts 0
      (record { key = 49 ∷ []; pattern = exact host_a; priority = 1 }) refl

plan_strict_priority-IsOrdered_example :
    (indices : List ℕ) × (lowered_two.order ≡ map (key_at three_hosts) indices)
    × IsAll (λ x. x < 3) indices
    × IsOrdered ◌≢◌ indices
    × IsOrdered (λ x y. IsBefore (host_at three_hosts x) (host_at three_hosts y)) indices
plan_strict_priority-IsOrdered_example =
    plan_strict_priority-IsOrdered three_hosts lowered_two plan_three
