-- ===== src/Validate/Strings/Tests.antt =====
-- src/validate/strings.ts: what the functions give on small texts.
use barycenter.Prelude.{◌≡◌, ◌≢◌, refl, true, false, none, some, [], ◌∷◌, map, IsAll}
use barycenter.Prelude.Text.{Text, split}
use barycenter.Validate.Ip.{dot}
use barycenter.Validate.Strings.{
  ok, err, invalid_host_pattern, invalid_header_name, invalid_path_prefix, invalid_hash_key,
  HostPlatform, exact, wildcard, parse_host_pattern, normalize_host, covers_host, before_end, star,
}
use barycenter.Validate.Strings.Header.{
  dollar, open_brace, close_brace, word_run, reference, scan_value, is_control,
  validate_header_name, validate_header_value, validate_path_prefix,
}
use barycenter.Validate.Strings.HashKey.{
  lower_ascii, after_start, parse_hash_key, http, tcp, by_header,
}
use barycenter.Validate.Strings.Values.{validate_header_value-ends, validate_header_value_iff}
use barycenter.Validate.Strings.References.{IsValue}
use barycenter.Validate.Strings.Safe.{IsHostText, parse_host_pattern-IsHostText}

-- A platform for ASCII.
abbrev pub ascii_platform : HostPlatform
ascii_platform = record { to_lower = map lower_ascii; hostname = λ h. some h }

-- `a.B`, `a.b`, `*.a.b`, `1.2.3`.
abbrev upper_host : Text
upper_host = 97 ∷ 46 ∷ 66 ∷ []

abbrev lower_host : Text
lower_host = 97 ∷ 46 ∷ 98 ∷ []

abbrev star_host : Text
star_host = star ∷ dot ∷ lower_host

-- `$host-${host}`.
abbrev two_references : Text
two_references =
    dollar ∷ 104 ∷ 111 ∷ 115 ∷ 116 ∷ 45 ∷ dollar ∷ open_brace ∷ 104 ∷ 111 ∷ 115 ∷ 116 ∷ close_brace
    ∷ []

parse_host_pattern_exact : parse_host_pattern ascii_platform upper_host ≡ ok (exact lower_host)
unfolding parse_host_pattern normalize_host split
parse_host_pattern_exact = refl

parse_host_pattern_wildcard : parse_host_pattern ascii_platform star_host ≡ ok (wildcard lower_host)
unfolding parse_host_pattern normalize_host split
parse_host_pattern_wildcard = refl

parse_host_pattern_two_stars :
    parse_host_pattern ascii_platform (star ∷ dot ∷ star_host) ≡ err invalid_host_pattern
unfolding parse_host_pattern
parse_host_pattern_two_stars = refl

validate_header_value_two : validate_header_value two_references ≡ some (ok two_references)
unfolding validate_header_value scan_value reference word_run
validate_header_value_two = refl

validate_header_name_empty : validate_header_name [] ≡ err invalid_header_name
unfolding validate_header_name
validate_header_name_empty = refl

validate_path_prefix_relative : validate_path_prefix lower_host ≡ err invalid_path_prefix
unfolding validate_path_prefix
validate_path_prefix_relative = refl

-- A wildcard covers one label.
covers_host_one : covers_host star_host (120 ∷ dot ∷ lower_host) ≡ true
unfolding covers_host before_end
covers_host_one = refl

covers_host_two : covers_host star_host (120 ∷ dot ∷ 120 ∷ dot ∷ lower_host) ≡ false
unfolding covers_host before_end
covers_host_two = refl

-- `header(X-A)`.
parse_hash_key_header :
    parse_hash_key http (104 ∷ 101 ∷ 97 ∷ 100 ∷ 101 ∷ 114 ∷ 40 ∷ 88 ∷ 45 ∷ 65 ∷ 41 ∷ [])
    ≡ ok (by_header (88 ∷ 45 ∷ 65 ∷ []) (104 ∷ 116 ∷ 116 ∷ 112 ∷ 95 ∷ 120 ∷ 95 ∷ 97 ∷ []))
unfolding parse_hash_key after_start before_end
parse_hash_key_header = refl

parse_hash_key_tcp : parse_hash_key tcp (104 ∷ 101 ∷ []) ≡ err invalid_hash_key
unfolding parse_hash_key
parse_hash_key_tcp = refl

validate_header_value-ends_example : validate_header_value two_references ≢ none
validate_header_value-ends_example = validate_header_value-ends two_references

validate_header_value_iff_example :
    IsAll (λ c. is_control c ≡ false) two_references × IsValue two_references
validate_header_value_iff_example =
    (validate_header_value_iff two_references).0 validate_header_value_two

parse_host_pattern-IsHostText_example : IsHostText lower_host
parse_host_pattern-IsHostText_example =
    parse_host_pattern-IsHostText ascii_platform star_host (wildcard lower_host)
      parse_host_pattern_wildcard
