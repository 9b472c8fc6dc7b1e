-- ===== src/Validate/Strings/Header.antt =====
-- src/validate/strings.ts, the names and values of headers, the prefixes of paths and the keys of
-- hashes.
use barycenter.Prelude.Lists.{any}
use barycenter.Prelude.{
  ℕ, zero, suc, Bool, false, not, ◌&&◌, ◌||◌, Option, none, some, List, [], ◌∷◌, leb, ◌==◌,
  if◌then◌else◌,
}
use barycenter.Prelude.Text.{Text, every, length, text_eq}
use barycenter.Validate.Strings.{
  invalid_header_name, invalid_header_value, invalid_path_prefix, Checked, ok, err, is_alphanumeric,
  underscore,
}

abbrev pub is_one_of : Text → ℕ → Bool
is_one_of [] c = false
is_one_of (x ∷ xs) c = (x == c) || is_one_of xs c

-- `!#$%&'*+-.^_`|~`.
abbrev token_marks : Text
token_marks = 33 ∷ 35 ∷ 36 ∷ 37 ∷ 38 ∷ 39 ∷ 42 ∷ 43 ∷ 45 ∷ 46 ∷ 94 ∷ 95 ∷ 96 ∷ 124 ∷ 126 ∷ []

abbrev pub is_token_char : ℕ → Bool
is_token_char c = is_alphanumeric c || is_one_of token_marks c

unfoldable pub validate_header_name : Text → Checked Text
validate_header_name input =
    if leb 1 (length input) && every is_token_char input then ok input else err invalid_header_name

-- `-._~!$&'()*+,;=:@/%`.
abbrev path_marks : Text
path_marks =
    45 ∷ 46 ∷ 95 ∷ 126 ∷ 33 ∷ 36 ∷ 38 ∷ 39 ∷ 40 ∷ 41 ∷ 42 ∷ 43 ∷ 44 ∷ 59 ∷ 61 ∷ 58 ∷ 64 ∷ 47 ∷ 37
    ∷ []

abbrev pub is_path_char : ℕ → Bool
is_path_char c = is_alphanumeric c || is_one_of path_marks c

abbrev is_path : Text → Bool
is_path [] = false
is_path (c ∷ t) = (c == 47) && every is_path_char t

unfoldable pub validate_path_prefix : Text → Checked Text
validate_path_prefix input = if is_path input then ok input else err invalid_path_prefix

-- `host`.
abbrev var_host : Text
var_host = 104 ∷ 111 ∷ 115 ∷ 116 ∷ []

-- `scheme`.
abbrev var_scheme : Text
var_scheme = 115 ∷ 99 ∷ 104 ∷ 101 ∷ 109 ∷ 101 ∷ []

-- `request_uri`.
abbrev pub var_request_uri : Text
var_request_uri = 114 ∷ 101 ∷ 113 ∷ 117 ∷ 101 ∷ 115 ∷ 116 ∷ 95 ∷ 117 ∷ 114 ∷ 105 ∷ []

-- `remote_addr`.
abbrev pub var_remote_addr : Text
var_remote_addr = 114 ∷ 101 ∷ 109 ∷ 111 ∷ 116 ∷ 101 ∷ 95 ∷ 97 ∷ 100 ∷ 100 ∷ 114 ∷ []

-- `remote_port`.
abbrev var_remote_port : Text
var_remote_port = 114 ∷ 101 ∷ 109 ∷ 111 ∷ 116 ∷ 101 ∷ 95 ∷ 112 ∷ 111 ∷ 114 ∷ 116 ∷ []

-- `server_addr`.
abbrev var_server_addr : Text
var_server_addr = 115 ∷ 101 ∷ 114 ∷ 118 ∷ 101 ∷ 114 ∷ 95 ∷ 97 ∷ 100 ∷ 100 ∷ 114 ∷ []

-- `server_port`.
abbrev var_server_port : Text
var_server_port = 115 ∷ 101 ∷ 114 ∷ 118 ∷ 101 ∷ 114 ∷ 95 ∷ 112 ∷ 111 ∷ 114 ∷ 116 ∷ []

-- `server_name`.
abbrev var_server_name : Text
var_server_name = 115 ∷ 101 ∷ 114 ∷ 118 ∷ 101 ∷ 114 ∷ 95 ∷ 110 ∷ 97 ∷ 109 ∷ 101 ∷ []

-- `http_upgrade`.
abbrev var_http_upgrade : Text
var_http_upgrade = 104 ∷ 116 ∷ 116 ∷ 112 ∷ 95 ∷ 117 ∷ 112 ∷ 103 ∷ 114 ∷ 97 ∷ 100 ∷ 101 ∷ []

-- `connection_upgrade`.
abbrev var_connection_upgrade : Text
var_connection_upgrade =
    99 ∷ 111 ∷ 110 ∷ 110 ∷ 101 ∷ 99 ∷ 116 ∷ 105 ∷ 111 ∷ 110 ∷ 95 ∷ 117 ∷ 112 ∷ 103 ∷ 114 ∷ 97 ∷ 100
    ∷ 101 ∷ []

-- `proxy_add_x_forwarded_for`.
abbrev var_proxy_add_x_forwarded_for : Text
var_proxy_add_x_forwarded_for =
    112 ∷ 114 ∷ 111 ∷ 120 ∷ 121 ∷ 95 ∷ 97 ∷ 100 ∷ 100 ∷ 95 ∷ 120 ∷ 95 ∷ 102 ∷ 111 ∷ 114 ∷ 119 ∷ 97
    ∷ 114 ∷ 100 ∷ 101 ∷ 100 ∷ 95 ∷ 102 ∷ 111 ∷ 114 ∷ []

-- `proxy_protocol_addr`.
abbrev var_proxy_protocol_addr : Text
var_proxy_protocol_addr =
    112 ∷ 114 ∷ 111 ∷ 120 ∷ 121 ∷ 95 ∷ 112 ∷ 114 ∷ 111 ∷ 116 ∷ 111 ∷ 99 ∷ 111 ∷ 108 ∷ 95 ∷ 97 ∷ 100
    ∷ 100 ∷ 114 ∷ []

-- `ssl_preread_server_name`.
abbrev var_ssl_preread_server_name : Text
var_ssl_preread_server_name =
    115 ∷ 115 ∷ 108 ∷ 95 ∷ 112 ∷ 114 ∷ 101 ∷ 114 ∷ 101 ∷ 97 ∷ 100 ∷ 95 ∷ 115 ∷ 101 ∷ 114 ∷ 118 ∷ 101
    ∷ 114 ∷ 95 ∷ 110 ∷ 97 ∷ 109 ∷ 101 ∷ []

-- `ssl_preread_protocol`.
abbrev var_ssl_preread_protocol : Text
var_ssl_preread_protocol =
    115 ∷ 115 ∷ 108 ∷ 95 ∷ 112 ∷ 114 ∷ 101 ∷ 114 ∷ 101 ∷ 97 ∷ 100 ∷ 95 ∷ 112 ∷ 114 ∷ 111 ∷ 116 ∷ 111
    ∷ 99 ∷ 111 ∷ 108 ∷ []

abbrev pub allowed_variables : List Text
allowed_variables =
    var_host ∷ var_scheme ∷ var_request_uri ∷ var_remote_addr ∷ var_remote_port ∷ var_server_addr
    ∷ var_server_port ∷ var_server_name ∷ var_http_upgrade ∷ var_connection_upgrade
    ∷ var_proxy_add_x_forwarded_for ∷ var_proxy_protocol_addr ∷ var_ssl_preread_server_name
    ∷ var_ssl_preread_protocol ∷ []

abbrev pub has_text : Text → List Text → Bool
has_text t xs = any (λ x. text_eq x t) xs

abbrev pub is_control : ℕ → Bool
is_control c = leb c 31 || (c == 127)

abbrev pub dollar : ℕ
dollar = 36

abbrev pub open_brace : ℕ
open_brace = 123

abbrev pub close_brace : ℕ
close_brace = 125

-- `[A-Za-z0-9_]`.
abbrev pub is_word : ℕ → Bool
is_word c = is_alphanumeric c || (c == underscore)

-- The longest run of such characters, and what follows it.
unfoldable pub word_run : Text → Text × Text
word_run [] = ([], [])
word_run (c ∷ t) = let rest = word_run t in if is_word c then (c ∷ rest.0, rest.1) else ([], c ∷ t)

abbrev pub close_reference : Text × Text → Option (Text × Text)
close_reference (name, []) = none
close_reference (name, c ∷ rest) =
    if (c == close_brace) && leb 1 (length name) then some (name, rest) else none

abbrev pub bare_reference : Text × Text → Option (Text × Text)
bare_reference ([], rest) = none
bare_reference (c ∷ name, rest) = some (c ∷ name, rest)

-- What stands after a `$`, as the name of a variable and the text after it.
unfoldable pub reference : Text → Option (Text × Text)
reference [] = none
reference (c ∷ t) =
    if c == open_brace then close_reference (word_run t) else bare_reference (word_run (c ∷ t))

pub data Scan : Type 0 where
  accepted rejected out_of_fuel : Scan

-- The loop over the positions of the value.
unfoldable pub scan_value : ℕ → Text → Scan
scan_value fuel [] = accepted
scan_value zero (c ∷ t) = out_of_fuel
scan_value (suc fuel) (c ∷ t) =
    if not (c == dollar) then scan_value fuel t else elim (reference t) [
      | none ↦ rejected
      | some (name, rest) ↦
          if not (has_text name allowed_variables) then rejected else scan_value fuel rest
    ]

abbrev pub checked_scan : Text → Scan → Option (Checked Text)
checked_scan input accepted = some (ok input)
checked_scan input rejected = some (err invalid_header_value)
checked_scan input out_of_fuel = none

abbrev pub has_control : Text → Bool
has_control [] = false
has_control (c ∷ t) = is_control c || has_control t

-- `none` where the fuel runs out.
unfoldable pub validate_header_value : Text → Option (Checked Text)
validate_header_value input =
    if has_control input
    then some (err invalid_header_value)
    else checked_scan input (scan_value (length input) input)
