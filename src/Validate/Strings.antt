-- ===== src/Validate/Strings.antt =====
-- src/validate/strings.ts: the values that reach the engine's configuration as text. A text is the
-- list of its UTF-16 units. What lower case is beyond ASCII, and what the URL parser makes of a host,
-- are the platform's: parameters. Messages are left out, an error is its kind.
pub mod Header
pub mod HashKey
pub mod References
pub mod Values
pub mod Safe
pub mod Tests
use barycenter.Prelude.{
  ℕ, zero, suc, ◌+◌, Bool, true, false, not, ◌&&◌, ◌||◌, Option, none, some, List, [], ◌∷◌, ◌++◌,
  map, leb, ltb, ◌==◌, if◌then◌else◌, is_some,
}
use barycenter.Prelude.Text.{
  Text, every, length, text_eq, includes, starts_with, split, last_of, but_last, is_digit,
}
use barycenter.Validate.Ip.{dot, ip_version}

pub data StringError : Type 0 where
  invalid_host invalid_host_pattern invalid_header_name invalid_header_value : StringError
  invalid_path_prefix invalid_hash_key : StringError

pub data Checked (A : Type 0) : Type 0 where
  ok : A → Checked A
  err : StringError → Checked A

abbrev pub is_lower : ℕ → Bool
is_lower c = leb 97 c && leb c 122

abbrev pub is_upper : ℕ → Bool
is_upper c = leb 65 c && leb c 90

abbrev pub is_alphanumeric : ℕ → Bool
is_alphanumeric c = is_lower c || is_upper c || is_digit c

abbrev pub dash : ℕ
dash = 45

abbrev pub underscore : ℕ
underscore = 95

abbrev pub star : ℕ
star = 42

-- `HOST_RAW_ALLOWED`, for one character.
abbrev pub is_raw_host : ℕ → Bool
is_raw_host c = is_alphanumeric c || (c == dot) || (c == dash) || leb 128 c

abbrev pub is_ldh_edge : ℕ → Bool
is_ldh_edge c = is_lower c || is_digit c

abbrev pub is_ldh : ℕ → Bool
is_ldh c = is_ldh_edge c || (c == dash)

abbrev ends_in_edge : Option ℕ → Bool
ends_in_edge none = false
ends_in_edge (some c) = is_ldh_edge c

-- `LDH_LABEL`.
abbrev pub is_ldh_label : Text → Bool
is_ldh_label [] = false
is_ldh_label (c ∷ t) = is_ldh_edge c && every is_ldh t && ends_in_edge (last_of (c ∷ t))

-- `/^\d{1,3}(\.\d{1,3}){3}$/`.
abbrev is_number_3 : Text → Bool
is_number_3 t = leb 1 (length t) && leb (length t) 3 && every is_digit t

abbrev pub looks_like_ipv4 : Text → Bool
looks_like_ipv4 t = (length (split dot t) == 4) && every is_number_3 (split dot t)

abbrev pub ends_with_dot : Option ℕ → Bool
ends_with_dot none = false
ends_with_dot (some c) = c == dot

abbrev pub without_last_dot : Text → Text
without_last_dot t = if ends_with_dot (last_of t) then but_last t else t

abbrev is_label : Text → Bool
is_label t = not (length t == 0) && leb (length t) 63 && is_ldh_label t

-- What follows the URL parser.
abbrev pub check_ascii : Text → Option Text → Checked Text
check_ascii host none = err invalid_host
check_ascii host (some ascii) =
    if looks_like_ipv4 ascii && not (text_eq ascii host)
    then err invalid_host
    else if length ascii == 0
    then err invalid_host
    else if ltb 253 (length ascii)
    then err invalid_host
    else if not (every is_label (split dot ascii))
    then err invalid_host
    else ok ascii

pub data HostPattern : Type 0 where
  exact wildcard : Text → HostPattern

abbrev pub count_of : ℕ → Text → ℕ
count_of c [] = 0
count_of c (x ∷ t) = if x == c then suc (count_of c t) else count_of c t

abbrev as_exact : Checked Text → Checked HostPattern
as_exact (ok h) = ok (exact h)
as_exact (err e) = err e

abbrev as_wildcard : Checked Text → Checked HostPattern
as_wildcard (ok s) = ok (wildcard s)
as_wildcard (err e) = err invalid_host_pattern

abbrev or_invalid_host : Checked Text → Checked Text
or_invalid_host (ok h) = ok h
or_invalid_host (err e) = err invalid_host

pub record HostPlatform : Type 0 where
  pub to_lower : Text → Text
  pub hostname : Text → Option Text

module _ (p : HostPlatform) where
  unfoldable pub normalize_host : Text → Checked Text
  normalize_host input =
      let host = without_last_dot (p.to_lower input) in
      if length input == 0
      then err invalid_host
      else if not (every is_raw_host input)
      then err invalid_host
      else if length host == 0
      then err invalid_host
      else check_ascii host (p.hostname host)

  abbrev pub wildcard_of : Text → Checked HostPattern
  wildcard_of (s ∷ d ∷ suffix) =
      if not ((s == star) && (d == dot))
      then err invalid_host_pattern
      else if length suffix == 0
      then err invalid_host_pattern
      else as_wildcard (normalize_host suffix)
  wildcard_of _ = err invalid_host_pattern

  unfoldable pub parse_host_pattern : Text → Checked HostPattern
  parse_host_pattern input =
      if length input == 0
      then err invalid_host_pattern
      else if count_of star input == 0
      then as_exact (normalize_host input)
      else if ltb 1 (count_of star input)
      then err invalid_host_pattern
      else wildcard_of input

  unfoldable pub validate_backend_host : Text → Checked Text
  validate_backend_host input =
      if is_some (ip_version input) then ok input else or_invalid_host (normalize_host input)

-- What stands before the end `t`, if the text ends with it.
unfoldable pub before_end : Text → Text → Option Text
before_end end [] = if text_eq [] end then some [] else none
before_end end (x ∷ t) =
    let rest = before_end end t in
    if text_eq (x ∷ t) end
    then some []
    else elim rest [ none ↦ none | some front ↦ some (x ∷ front) ]

-- Whether a host is one label, which may be empty, before `.suffix`.
abbrev pub has_one_label : Option Text → Bool
has_one_label none = false
has_one_label (some front) = not (includes dot front)

abbrev suffix_covers : Text → Text → Bool
suffix_covers (s ∷ d ∷ suffix) host =
    (s == star) && (d == dot) && has_one_label (before_end (dot ∷ suffix) host)
suffix_covers _ host = false

unfoldable pub covers_host : Text → Text → Bool
covers_host pattern host = text_eq pattern host || suffix_covers pattern host
