-- ===== src/Validate/Tests.antt =====
-- Concrete addresses, blocks and reservations of src/validate.
use barycenter.Prelude.{
  ◌≡◌, refl, ◌↔◌, Option, some, [], ◌∷◌, ◌+◌, ◌*◌, ◌^◌, lookup, insert, ◌≢◌, none, true, List,
  arith,
}
use barycenter.Prelude.Text.{Text, split, cut}
use barycenter.Validate.Ip.{v4, is_ipv4, ip_version, cidr_version}
use barycenter.Validate.Cidr.{Block, ip_bits, parse_block, cidr_covers}
use barycenter.Validate.Cover.{IsWithin, cidr_covers_iff}
use barycenter.Validate.Written.{dotted, IsDotted, is_ipv4_iff}
use barycenter.Validate.Sockets.{
  SocketReservation, http, tcp, find_socket_conflicts, key_less, v4_mapped, normalize_bind,
}
use barycenter.Prelude.Sorting.{sort_by, insert_sorted}
use barycenter.Validate.Transition.{
  Listener, redirects, sockets_of_groups, blockers_of, conflicts_of, grouped, bound_tcp_sockets,
  bind_transition_conflicts,
}
use barycenter.Validate.Transition.Reload.{Reloads, bind_transition_conflicts-nil}
use barycenter.Validate.Contention.{IsFree, find_socket_conflicts-nil}

-- `10.0.0.0/8`.
abbrev wide_block : Text
wide_block = 49 ∷ 48 ∷ 46 ∷ 48 ∷ 46 ∷ 48 ∷ 46 ∷ 48 ∷ 47 ∷ 56 ∷ []

-- `10.1.0.0/16`.
abbrev narrow_block : Text
narrow_block = 49 ∷ 48 ∷ 46 ∷ 49 ∷ 46 ∷ 48 ∷ 46 ∷ 48 ∷ 47 ∷ 49 ∷ 54 ∷ []

abbrev wide : Block
wide = record { version = v4; net = 10 * 2 ^ 24; len = 8 }

abbrev narrow : Block
narrow = record { version = v4; net = 10 * 2 ^ 24 + 2 ^ 16; len = 16 }

cidr_covers_iff_example : (cidr_covers wide_block narrow_block ≡ true) ↔ IsWithin narrow wide
unfolding parse_block cidr_version ip_version ip_bits is_ipv4 split cut
cidr_covers_iff_example = cidr_covers_iff wide_block narrow_block wide narrow refl refl

abbrev local_address : Text
local_address = dotted 127 0 0 1

is_ipv4_iff_example : (is_ipv4 local_address ≡ true) ↔ IsDotted local_address
is_ipv4_iff_example = is_ipv4_iff local_address

-- A URL parser that takes every address as it stands.
abbrev as_written : Text → Option Text
as_written t = some t

abbrev web : SocketReservation
web = record { key = 97 ∷ []; protocol = http; bind = dotted 0 0 0 0; port = 80 }

abbrev raw : SocketReservation
raw = record { key = 98 ∷ []; protocol = tcp; bind = dotted 10 1 2 3; port = 80 }

find_socket_conflicts-nil_example :
    (find_socket_conflicts as_written (raw ∷ web ∷ []) ≡ [])
    ↔ IsFree as_written (raw ∷ web ∷ []) (raw ∷ web ∷ [])
find_socket_conflicts-nil_example = find_socket_conflicts-nil as_written (raw ∷ web ∷ [])

abbrev plain_listener : Text → Listener
plain_listener address = record {
  key = 97 ∷ [];
  protocol = http;
  bind = address;
  port = 80;
  enabled = true;
  http_redirect = none;
}

-- `0.0.0.0` after `10.1.2.3` on one port is blocked, and the other way round too.
bind_transition_to_all :
    bind_transition_conflicts as_written key_less
      (plain_listener (dotted 10 1 2 3) ∷ [])
      (plain_listener (dotted 0 0 0 0) ∷ [])
    ≢ []
unfolding bind_transition_conflicts bound_tcp_sockets grouped redirects sockets_of_groups
    conflicts_of blockers_of normalize_bind v4_mapped ip_version is_ipv4 split sort_by insert_sorted
    lookup insert
bind_transition_to_all = ground arith

abbrev first_listeners : List Listener
first_listeners = plain_listener (dotted 10 1 2 3) ∷ []

abbrev second_listeners : List Listener
second_listeners = plain_listener (dotted 10 1 2 3) ∷ plain_listener (dotted 10 1 2 4) ∷ []

no_conflict : bind_transition_conflicts as_written key_less first_listeners second_listeners ≡ []
unfolding bind_transition_conflicts bound_tcp_sockets grouped redirects sockets_of_groups
    conflicts_of blockers_of normalize_bind v4_mapped ip_version is_ipv4 split sort_by insert_sorted
    lookup insert
no_conflict = refl

bind_transition_conflicts-nil_example :
    Reloads
      (bound_tcp_sockets as_written key_less first_listeners)
      (bound_tcp_sockets as_written key_less second_listeners)
bind_transition_conflicts-nil_example =
    (bind_transition_conflicts-nil as_written key_less first_listeners second_listeners).0
      no_conflict
