-- ===== src/Validate/Transition.antt =====
-- src/validate/bind-transition.ts and src/model/redirect.ts: the sockets that a reload cannot bind
-- while the old ones are open. The fields of a listener that no function here reads, and messages,
-- are left out; a socket's name is its family, address and port. How `localeCompare` orders addresses
-- is a parameter, and so is the canonical text of an IPv6 address.
pub mod Groups
pub mod Together
pub mod Reload
use barycenter.Prelude.{
  ℕ, Bool, true, false, not, ◌&&◌, ◌||◌, ◌≡◌, ◌↔◌, refl, arith, Option, none, some, List, [], ◌∷◌,
  ◌++◌, map, ltb, ◌==◌, if◌then◌else◌, Eq, Assoc, lookup, insert,
}
use barycenter.Prelude.Lists.{any}
use barycenter.Prelude.Sorting.{sort_by}
use barycenter.Prelude.Text.{Text, text_eq}
use barycenter.Validate.Ip.{Version, v4, v6, version_eq}
use barycenter.Validate.Sockets.{
  ListenerProtocol, http, https, udp, tls_passthrough, tcp, Transport, tcp_transport, udp_transport,
  transport_of, BindAddress, normalize_bind,
}

pub record Listener : Type 0 where
  pub key : Text
  pub protocol : ListenerProtocol
  pub bind : Text
  pub port : ℕ
  pub enabled : Bool
  pub http_redirect : Option ℕ

-- `:http`.
abbrev pub redirect_key_of : Text → Text
redirect_key_of key = key ++ (58 ∷ 104 ∷ 116 ∷ 116 ∷ 112 ∷ [])

abbrev pub redirect_to : Listener → ListenerProtocol → Option ℕ → Option Listener
redirect_to l https (some port) = some record {
  key = redirect_key_of l.key;
  protocol = http;
  bind = l.bind;
  port = port;
  enabled = l.enabled;
  http_redirect = none;
}
redirect_to l _ redirect = none

abbrev pub redirect_listener_of : Listener → Option Listener
redirect_listener_of l = redirect_to l l.protocol l.http_redirect

abbrev pub with_some : Option Listener → List Listener → List Listener
with_some none ls = ls
with_some (some l) ls = l ∷ ls

unfoldable pub redirects : List Listener → List Listener
redirects [] = []
redirects (l ∷ ls) = with_some (redirect_listener_of l) (redirects ls)

abbrev pub with_redirect_listeners : List Listener → List Listener
with_redirect_listeners ls = ls ++ redirects ls

pub record Bound : Type 0 where
  pub family : Version
  pub addr : Text
  pub wildcard : Bool
  pub port : ℕ

-- `family/port`.
abbrev pub GroupKey : Type 0
GroupKey = Version × ℕ

abbrev pub same_group : GroupKey → GroupKey → Bool
same_group (f, p) (g, q) = version_eq f g && (p == q)

pub version_eq_iff : (f g : Version) → (version_eq f g ≡ true) ↔ (f ≡ g)
version_eq_iff f g = ground arith

pub same_group_iff : (j k : GroupKey) → (same_group j k ≡ true) ↔ (j ≡ k)
same_group_iff (f, p) (g, q) = ground (arith, version_eq_iff f g)

instance abbrev pub group_of_port : Eq GroupKey
group_of_port = record { beq = same_group; beq_iff = same_group_iff }

abbrev pub Groups : Type 0
Groups = Assoc GroupKey (List Bound)

abbrev pub bound_of : BindAddress → ℕ → Bound
bound_of a port = record { family = a.family; addr = a.addr; wildcard = a.wildcard; port = port }

abbrev pub or_none : Option (List Bound) → List Bound
or_none none = []
or_none (some bs) = bs

abbrev pub add_once : Bound → List Bound → List Bound
add_once b list = if any (λ x. text_eq x.addr b.addr) list then list else list ++ (b ∷ [])

abbrev pub add_bound : Bound → Groups → Groups
add_bound b groups =
    insert (b.family, b.port) (add_once b (or_none (lookup (b.family, b.port) groups))) groups

abbrev pub add_address : ℕ → Option BindAddress → Groups → Groups
add_address port none groups = groups
add_address port (some a) groups = add_bound (bound_of a port) groups

abbrev pub is_tcp : Transport → Bool
is_tcp tcp_transport = true
is_tcp udp_transport = false

abbrev pub first_wildcard : List Bound → Option Bound
first_wildcard [] = none
first_wildcard (b ∷ bs) = if b.wildcard then some b else first_wildcard bs

abbrev pub wildcard_or_all : List Bound → Option Bound → List Bound
wildcard_or_all list none = list
wildcard_or_all list (some wild) = wild ∷ []

unfoldable pub sockets_of_groups : Groups → List Bound
sockets_of_groups [] = []
sockets_of_groups ((k, list) ∷ groups) =
    wildcard_or_all list (first_wildcard list) ++ sockets_of_groups groups

-- Whether the names of two sockets are equal.
abbrev pub same_socket : Bound → Bound → Bool
same_socket a b = version_eq a.family b.family && text_eq a.addr b.addr && (a.port == b.port)

abbrev pub blocks : Bound → Bound → Bool
blocks n o = version_eq o.family n.family && (o.port == n.port) && (o.wildcard || n.wildcard)

pub record BindTransitionConflict : Type 0 where
  pub opens : Bound
  pub blocked_by : List Bound

unfoldable pub blockers_of : Bound → List Bound → List Bound
blockers_of n [] = []
blockers_of n (o ∷ open_ones) =
    let rest = blockers_of n open_ones in if blocks n o then o ∷ rest else rest

abbrev pub conflict_with : Bound → List Bound → List BindTransitionConflict
conflict_with n [] = []
conflict_with n (b ∷ bs) = record { opens = n; blocked_by = b ∷ bs } ∷ []

unfoldable pub conflicts_of : List Bound → List Bound → List BindTransitionConflict
conflicts_of open_ones [] = []
conflicts_of open_ones (n ∷ ns) =
    let rest = conflicts_of open_ones ns in
    if any (λ o. same_socket o n) open_ones
    then rest
    else conflict_with n (blockers_of n open_ones) ++ rest

module _ (canonical : Text → Option Text) (locale_less : Text → Text → Bool) where
  unfoldable pub grouped : List Listener → Groups → Groups
  grouped [] groups = groups
  grouped (l ∷ ls) groups = grouped ls (
      if not l.enabled || not (is_tcp (transport_of l.protocol))
      then groups
      else add_address l.port (normalize_bind canonical l.bind) groups)

  abbrev pub socket_first : Bound → Bound → Bool
  socket_first a b = ltb a.port b.port || ((a.port == b.port) && locale_less a.addr b.addr)

  unfoldable pub bound_tcp_sockets : List Listener → List Bound
  bound_tcp_sockets listeners =
      sort_by socket_first (sockets_of_groups (grouped (with_redirect_listeners listeners) []))

  unfoldable pub bind_transition_conflicts :
      List Listener → List Listener → List BindTransitionConflict
  bind_transition_conflicts before after =
      conflicts_of (bound_tcp_sockets before) (bound_tcp_sockets after)
