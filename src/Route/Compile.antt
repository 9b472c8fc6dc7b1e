-- ===== src/Route/Compile.antt =====
-- src/route/compile.ts, `compileHostRoutes`: the order in which the engine tries the routes of a
-- listener, and what it warns of. Messages are left out, a warning or an error is its kind and the
-- keys of its routes.
pub mod Tried
pub mod Order
pub mod Warnings
use barycenter.Prelude.{
  ℕ, Bool, true, false, not, ◌&&◌, ◌||◌, Option, none, some, List, [], ◌∷◌, ◌++◌, ltb, leb, ◌==◌,
  if◌then◌else◌, max, Eq, Assoc, lookup, insert,
}
use barycenter.Prelude.Sorting.{sort_by}
use barycenter.Prelude.Text.{Text, length, text_eq}
use barycenter.Validate.Contention.{text_eq_iff}
use barycenter.Validate.Strings.{HostPlatform, HostPattern, Checked, ok, err, parse_host_pattern}
use barycenter.Validate.Strings.Header.{has_text}
use barycenter.Route.{
  MatchClass, class_rank, match_class, pattern_key, patterns_conflict, text_less,
}

pub record RouteInput : Type 0 where
  pub key : Text
  pub host : Text
  pub priority : ℕ
  pub path_prefix : Option Text

pub record CompiledRoute : Type 0 where
  pub key : Text
  pub match_class : MatchClass
  pub pattern : HostPattern
  pub priority : ℕ
  pub path_prefix : Text

pub data WarningKind : Type 0 where
  priority_inversion path_priority_ignored : WarningKind

pub record CompileWarning : Type 0 where
  pub kind : WarningKind
  pub first : Text
  pub second : Text

pub data ErrorKind : Type 0 where
  invalid_host duplicate_match : ErrorKind

pub record CompileError : Type 0 where
  pub kind : ErrorKind
  pub route : Text

pub record CompileResult : Type 0 where
  pub order : List CompiledRoute
  pub warnings : List CompileWarning
  pub errors : List CompileError

instance abbrev pub text_keys : Eq Text
text_keys = record { beq = text_eq; beq_iff = text_eq_iff }

-- `/` where there is none.
abbrev pub prefix_or_root : Option Text → Text
prefix_or_root none = 47 ∷ []
prefix_or_root (some t) = t

abbrev pub compiled_as : RouteInput → HostPattern → CompiledRoute
compiled_as r pattern = record {
  key = r.key;
  match_class = match_class pattern;
  pattern = pattern;
  priority = r.priority;
  path_prefix = prefix_or_root r.path_prefix;
}

abbrev pub add_parsed :
    RouteInput
    → Checked HostPattern
    → List CompileError × List CompiledRoute
    → List CompileError × List CompiledRoute
add_parsed r (ok pattern) (errors, compiled) = (errors, compiled_as r pattern ∷ compiled)
add_parsed r (err e) (errors, compiled) =
    (record { kind = invalid_host; route = r.key } ∷ errors, compiled)

unfoldable pub parse_routes :
    HostPlatform → List RouteInput → List CompileError × List CompiledRoute
parse_routes p [] = ([], [])
parse_routes p (r ∷ routes) = add_parsed r (parse_host_pattern p r.host) (parse_routes p routes)

-- What is matched: `patternKey|pathPrefix`.
abbrev pub match_key : CompiledRoute → Text
match_key c = pattern_key c.pattern ++ (124 ∷ c.path_prefix)

unfoldable pub duplicates : List CompiledRoute → List Text → List CompileError
duplicates [] seen = []
duplicates (c ∷ cs) seen =
    let known = has_text (match_key c) seen in
    let rest = duplicates cs (if known then seen else match_key c ∷ seen) in
    if known then record { kind = duplicate_match; route = c.key } ∷ rest else rest

abbrev pub key_less : CompiledRoute → CompiledRoute → Bool
key_less a b = text_less a.key b.key

abbrev pub raised : Option ℕ → ℕ → ℕ
raised none n = n
raised (some m) n = max m n

-- The greatest priority of each host.
unfoldable pub host_priorities : List CompiledRoute → Assoc Text ℕ → Assoc Text ℕ
host_priorities [] m = m
host_priorities (c ∷ cs) m =
    let k = pattern_key c.pattern in
    host_priorities cs (insert k (raised (lookup k m) c.priority) m)

-- Every route's host is there.
abbrev pub host_priority : Assoc Text ℕ → CompiledRoute → ℕ
host_priority m c = elim (lookup (pattern_key c.pattern) m) [ none ↦ 0 | some n ↦ n ]

-- By class, then by the host's priority, then the longer path, then by key.
abbrev pub route_first : Assoc Text ℕ → CompiledRoute → CompiledRoute → Bool
route_first m a b =
    ltb (class_rank b.match_class) (class_rank a.match_class)
    || (class_rank b.match_class == class_rank a.match_class)
      && (ltb (host_priority m b) (host_priority m a)
          || (host_priority m b == host_priority m a)
            && (ltb (length b.path_prefix) (length a.path_prefix)
                || (length b.path_prefix == length a.path_prefix) && text_less a.key b.key))

abbrev pub is_inversion : CompiledRoute → CompiledRoute → Bool
is_inversion hi lo =
    not (leb (class_rank hi.match_class) (class_rank lo.match_class))
    && not (leb lo.priority hi.priority)
    && patterns_conflict hi.pattern lo.pattern

abbrev pub inversion : Text → Text → CompileWarning
inversion hi lo = record { kind = priority_inversion; first = hi; second = lo }

unfoldable pub inversions_of : CompiledRoute → List CompiledRoute → List CompileWarning
inversions_of hi [] = []
inversions_of hi (lo ∷ los) =
    let rest = inversions_of hi los in
    if is_inversion hi lo then inversion hi.key lo.key ∷ rest else rest

-- The pairs of `his` and `order`.
unfoldable pub inversions : List CompiledRoute → List CompiledRoute → List CompileWarning
inversions [] order = []
inversions (hi ∷ his) order = inversions_of hi order ++ inversions his order

abbrev pub is_path_ignored : CompiledRoute → CompiledRoute → Bool
is_path_ignored a b =
    text_eq (pattern_key a.pattern) (pattern_key b.pattern)
    && not (length a.path_prefix == length b.path_prefix)
    && ltb a.priority b.priority

abbrev pub path_ignored : Text → Text → CompileWarning
path_ignored a b =
    if text_less a b
    then record { kind = path_priority_ignored; first = a; second = b }
    else record { kind = path_priority_ignored; first = b; second = a }

unfoldable pub path_warnings_of : CompiledRoute → List CompiledRoute → List CompileWarning
path_warnings_of a [] = []
path_warnings_of a (b ∷ bs) =
    let rest = path_warnings_of a bs in
    if is_path_ignored a b then path_ignored a.key b.key ∷ rest else rest

unfoldable pub path_warnings : List CompiledRoute → List CompileWarning
path_warnings [] = []
path_warnings (a ∷ bs) = path_warnings_of a bs ++ path_warnings bs

unfoldable pub analyze : List CompiledRoute → List CompileWarning
analyze order = inversions order order ++ path_warnings order

abbrev pub ordered_routes : List CompiledRoute → List CompiledRoute
ordered_routes compiled = sort_by (route_first (host_priorities compiled [])) compiled

abbrev pub result_of : List CompileError → List CompiledRoute → CompileResult
result_of [] compiled = record {
  order = ordered_routes compiled;
  warnings = analyze (ordered_routes compiled);
  errors = [];
}
result_of (e ∷ errors) compiled = record { order = []; warnings = []; errors = e ∷ errors }

unfoldable pub compile_host_routes : HostPlatform → List RouteInput → CompileResult
compile_host_routes p routes =
    let (errors, compiled) = parse_routes p routes in
    result_of (errors ++ duplicates (sort_by key_less compiled) []) compiled
