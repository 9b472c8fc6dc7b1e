-- ===== src/Validate/Ip.antt =====
-- src/validate/ip.ts: which texts are addresses and CIDR blocks, and when a block covers another. A
-- text is the list of its character codes.
use barycenter.Prelude.{
  ℕ, ◌+◌, Bool, true, false, not, ◌&&◌, ◌||◌, Option, none, some, List, [], ◌∷◌, ◌++◌, leb, ◌==◌,
  if◌then◌else◌, is_some,
}
use barycenter.Prelude.Text.{
  Text, every, length, last_of, but_last, includes, starts_with, split, cut, cut_double, is_digit,
  is_hex_digit, decimal_value,
}

pub data Version : Type 0 where
  v4 v6 : Version

abbrev pub version_eq : Version → Version → Bool
version_eq v4 v4 = true
version_eq v6 v6 = true
version_eq _ _ = false

abbrev pub width_of : Version → ℕ
width_of v4 = 32
width_of v6 = 128

abbrev pub dot : ℕ
dot = 46

abbrev pub slash : ℕ
slash = 47

abbrev pub colon : ℕ
colon = 58

abbrev pub percent : ℕ
percent = 37

-- `/^(0|[1-9][0-9]{0,2})$/`.
abbrev pub is_short_number : Text → Bool
is_short_number [] = false
is_short_number (c ∷ []) = is_digit c
is_short_number (c ∷ t) = is_digit c && not (c == 48) && every is_digit t && leb (length t) 2

abbrev pub is_octet : Text → Bool
is_octet t = is_short_number t && leb (decimal_value t) 255

unfoldable pub is_ipv4 : Text → Bool
is_ipv4 input =
    let parts = split dot input in if not (length parts == 4) then false else every is_octet parts

-- `/^[0-9a-fA-F]{1,4}$/`.
abbrev pub is_hextet : Text → Bool
is_hextet t = leb 1 (length t) && leb (length t) 4 && every is_hex_digit t

abbrev pub is_blank : Text → Bool
is_blank [] = true
is_blank (c ∷ t) = false

abbrev pub parts_of : Text → List Text
parts_of t = if is_blank t then [] else split colon t

abbrev count_is_right : Bool → ℕ → Bool
count_is_right true groups = leb groups 7
count_is_right false groups = groups == 8

abbrev ends_in_ipv4 : Option Text → Bool
ends_in_ipv4 none = false
ends_in_ipv4 (some t) = includes dot t

abbrev last_is_ipv4 : Option Text → Bool
last_is_ipv4 none = false
last_is_ipv4 (some t) = is_ipv4 t

-- The groups before and after the `::`, if there is one.
unfoldable pub groups_are_right : Bool → List Text → List Text → Bool
groups_are_right dbl head tail =
    let all = head ++ tail in
    if ends_in_ipv4 (last_of all)
    then (if dbl && length tail == 0
        then false
        else if not (last_is_ipv4 (last_of all))
        then false
        else every is_hextet (but_last all) && count_is_right dbl (length (but_last all) + 2))
    else every is_hextet all && count_is_right dbl (length all)

abbrev ends_with_colon : Option ℕ → Bool
ends_with_colon none = false
ends_with_colon (some c) = c == colon

unfoldable pub is_ipv6_address : Text → Bool
is_ipv6_address addr = elim (cut_double colon addr) [
  | none ↦ groups_are_right false (split colon addr) []
  | some (h, t) ↦
      if is_some (cut_double colon (colon ∷ t))
      then false
      else if ends_with_colon (last_of h) || starts_with (colon ∷ []) t
      then false
      else groups_are_right true (parts_of h) (parts_of t)
]

unfoldable pub is_ipv6 : Text → Bool
is_ipv6 input = elim (cut percent input) [
  | none ↦ is_ipv6_address input
  | some (addr, zone) ↦
      if is_blank zone || includes percent zone then false else is_ipv6_address addr
]

unfoldable pub ip_version : Text → Option Version
ip_version input = if is_ipv4 input then some v4 else if is_ipv6 input then some v6 else none

abbrev pub prefix_fits : Version → Text → Option Version
prefix_fits v prefix =
    if not (is_short_number prefix)
    then none
    else if leb (decimal_value prefix) (width_of v)
    then some v
    else none

abbrev pub before_slash : Text → Text
before_slash input = elim (cut slash input) [ none ↦ input | some (addr, prefix) ↦ addr ]

abbrev pub after_slash : Text → Option Text
after_slash input = elim (cut slash input) [ none ↦ none | some (addr, prefix) ↦ some prefix ]

abbrev pub with_prefix : Option Version → Option Text → Option Version
with_prefix none prefix = none
with_prefix (some v) none = some v
with_prefix (some v) (some prefix) = prefix_fits v prefix

unfoldable pub cidr_version : Text → Option Version
cidr_version input =
    if includes percent (before_slash input)
    then none
    else with_prefix (ip_version (before_slash input)) (after_slash input)
