-- ===== src/Route/Strict.antt =====
-- src/route/compile.ts, `planStrictPriority`: the hosts that contend for a name with each other are
-- searched by depth first, and a component where a class beats a priority is lowered to regular
-- expressions. An array of arrays is a function from indices; a `Set` is the list of its members.
pub mod Edges
pub mod Graph
pub mod Links
pub mod Visit
pub mod Search
pub mod Lowered
pub mod Keys
pub mod Order
use barycenter.Prelude.{
  ℕ, zero, suc, Bool, true, false, ◌&&◌, ◌||◌, Option, none, some, List, [], ◌∷◌, ◌++◌, map, ltb,
  ◌==◌, if◌then◌else◌,
}
use barycenter.Prelude.Lists.{any}
use barycenter.Prelude.Sorting.{sort_by}
use barycenter.Prelude.Text.{Text, length, text_eq}
use barycenter.Validate.Strings.{HostPattern}
use barycenter.Validate.Strings.Header.{has_text}
use barycenter.Route.{class_rank, match_class, pattern_key, patterns_conflict, text_less}

pub record HostEntry : Type 0 where
  pub key : Text
  pub pattern : HostPattern
  pub priority : ℕ

abbrev pub host_at : List HostEntry → ℕ → Option HostEntry
host_at [] i = none
host_at (h ∷ hosts) zero = some h
host_at (h ∷ hosts) (suc i) = host_at hosts i

abbrev pub Adjacency : Type 0
Adjacency = ℕ → List ℕ

abbrev pub push_at : ℕ → ℕ → Adjacency → Adjacency
push_at i x adj k = if k == i then adj k ++ (x ∷ []) else adj k

abbrev pub push_both : ℕ → ℕ → Adjacency → Adjacency
push_both i j adj = push_at j i (push_at i j adj)

-- The inner loop, from `j`, and the outer one, from `i`.
unfoldable pub connect : ℕ → HostEntry → ℕ → List HostEntry → Adjacency → Adjacency
connect i a j [] adj = adj
connect i a j (b ∷ hosts) adj =
    connect i a (suc j) hosts
      (if patterns_conflict a.pattern b.pattern then push_both i j adj else adj)

unfoldable pub connect_all : ℕ → List HostEntry → Adjacency → Adjacency
connect_all i [] adj = adj
connect_all i (a ∷ hosts) adj = connect_all (suc i) hosts (connect i a (suc i) hosts adj)

abbrev pub adjacency : List HostEntry → Adjacency
adjacency hosts = connect_all 0 hosts (λ k. [])

abbrev pub has : ℕ → List ℕ → Bool
has x ys = any (λ y. y == x) ys

-- The loop over neighbours: the set of seen indices, and the stack with its top first.
unfoldable pub visit : List ℕ → List ℕ → List ℕ → List ℕ × List ℕ
visit [] seen stack = (seen, stack)
visit (nb ∷ nbs) seen stack =
    let known = has nb seen in
    visit nbs (if known then seen else nb ∷ seen) (if known then stack else nb ∷ stack)

-- The loop over the stack: the component and the set of seen indices.
unfoldable pub search_from : Adjacency → ℕ → List ℕ → List ℕ → List ℕ → Option (List ℕ × List ℕ)
search_from adj fuel [] seen comp = some (comp, seen)
search_from adj zero (cur ∷ stack) seen comp = none
search_from adj (suc fuel) (cur ∷ stack) seen comp =
    let visited = visit (adj cur) seen stack in
    search_from adj fuel visited.1 visited.0 (comp ++ (cur ∷ []))

-- Indices are in range wherever this is asked.
abbrev pub is_inverted_pair : Option HostEntry → Option HostEntry → Bool
is_inverted_pair (some a) (some b) =
    ltb (class_rank (match_class b.pattern)) (class_rank (match_class a.pattern))
    && ltb a.priority b.priority
is_inverted_pair (some a) none = false
is_inverted_pair none b = false

abbrev pub is_inverted : List HostEntry → List ℕ → Bool
is_inverted hosts comp =
    any (λ i. any (λ j. is_inverted_pair (host_at hosts i) (host_at hosts j)) comp) comp

-- The loop over all indices: those of the lowered hosts.
unfoldable pub lower_from : List HostEntry → List ℕ → List ℕ → List ℕ → Option (List ℕ)
lower_from hosts [] seen lowered = some lowered
lower_from hosts (s ∷ indices) seen lowered = elim (has s seen) [
  | true ↦ lower_from hosts indices seen lowered
  | false ↦ elim (search_from (adjacency hosts) (length hosts) (s ∷ []) (s ∷ seen) []) [
    | none ↦ none
    | some (comp, reached) ↦
        lower_from hosts indices reached
          (if is_inverted hosts comp then lowered ++ comp else lowered)
  ]
]

abbrev pub indices_from : ℕ → List HostEntry → List ℕ
indices_from i [] = []
indices_from i (h ∷ hosts) = i ∷ indices_from (suc i) hosts

abbrev pub lowered_indices : List HostEntry → Option (List ℕ)
lowered_indices hosts = lower_from hosts (indices_from 0 hosts) [] []

-- The comparison of the last sort; an index out of range, which there is none, would go last.
abbrev pub goes_first : Option HostEntry → Option HostEntry → Bool
goes_first (some a) (some b) =
    ltb b.priority a.priority || ((a.priority == b.priority) && text_less a.key b.key)
goes_first (some a) none = true
goes_first none b = false

abbrev pub key_of : Option HostEntry → Text
key_of (some h) = pattern_key h.pattern
key_of none = []

abbrev pub key_at : List HostEntry → ℕ → Text
key_at hosts i = key_of (host_at hosts i)

abbrev pub add_key : Text → List Text → List Text
add_key k ks = if has_text k ks then ks else ks ++ (k ∷ [])

abbrev pub add_keys : List HostEntry → List ℕ → List Text → List Text
add_keys hosts [] ks = ks
add_keys hosts (i ∷ is) ks = add_keys hosts is (add_key (key_at hosts i) ks)

pub record StrictPriorityPlan : Type 0 where
  pub lowered : List Text
  pub order : List Text

unfoldable pub order_of : List HostEntry → List ℕ → List ℕ
order_of hosts lowered = sort_by (λ x y. goes_first (host_at hosts x) (host_at hosts y)) lowered

abbrev pub plan_of : List HostEntry → Option (List ℕ) → Option StrictPriorityPlan
plan_of hosts none = none
plan_of hosts (some lowered) = some record {
  lowered = add_keys hosts lowered [];
  order = map (key_at hosts) (order_of hosts lowered);
}

-- `none` where the fuel of a search runs out.
unfoldable pub plan_strict_priority : List HostEntry → Option StrictPriorityPlan
plan_strict_priority hosts = plan_of hosts (lowered_indices hosts)
