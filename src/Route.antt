-- ===== src/Route.antt =====
-- src/route/compile.ts: the patterns of hosts, whether two of them contend for a host, and which of
-- the engine's classes a pattern is in.
pub mod Conflicts
pub mod Compile
pub mod Strict
pub mod Tests
use barycenter.Prelude.{
  ℕ, Bool, true, false, not, ◌&&◌, ◌||◌, Option, none, some, List, [], ◌∷◌, ltb, ◌==◌,
}
use barycenter.Prelude.Text.{Text, text_eq}
use barycenter.Validate.Ip.{dot}
use barycenter.Validate.Strings.{HostPattern, exact, wildcard, star, before_end, has_one_label}

pub data MatchClass : Type 0 where
  exact_host wildcard_host regex_host : MatchClass

-- The engine tries the classes in descending order.
abbrev pub class_rank : MatchClass → ℕ
class_rank exact_host = 3
class_rank wildcard_host = 2
class_rank regex_host = 1

abbrev pub match_class : HostPattern → MatchClass
match_class (exact h) = exact_host
match_class (wildcard s) = wildcard_host

-- `=host` or `*suffix`.
abbrev pub pattern_key : HostPattern → Text
pattern_key (exact h) = 61 ∷ h
pattern_key (wildcard s) = star ∷ s

-- Whether `cmp a b` is negative: the order of texts by their UTF-16 units.
unfoldable pub text_less : Text → Text → Bool
text_less [] [] = false
text_less [] (y ∷ t) = true
text_less (x ∷ s) [] = false
text_less (x ∷ s) (y ∷ t) = ltb x y || ((x == y) && text_less s t)

abbrev pub wildcard_takes : Text → Text → Bool
wildcard_takes suffix host = has_one_label (before_end (dot ∷ suffix) host)

unfoldable pub patterns_conflict : HostPattern → HostPattern → Bool
patterns_conflict (exact g) (exact h) = text_eq g h
patterns_conflict (wildcard s) (wildcard t) = text_eq s t
patterns_conflict (exact h) (wildcard s) = wildcard_takes s h
patterns_conflict (wildcard s) (exact h) = wildcard_takes s h
