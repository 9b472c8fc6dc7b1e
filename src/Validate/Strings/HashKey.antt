-- ===== src/Validate/Strings/HashKey.antt =====
-- src/validate/strings.ts, the keys of hashes.
use barycenter.Prelude.{
  ℕ, ◌+◌, Bool, true, false, not, ◌&&◌, ◌||◌, Option, none, some, [], ◌∷◌, ◌++◌, map, leb, ◌==◌,
  if◌then◌else◌,
}
use barycenter.Prelude.Text.{Text, every, length, text_eq}
use barycenter.Validate.Strings.{
  invalid_hash_key, Checked, ok, err, is_upper, is_alphanumeric, dash, underscore, before_end,
}
use barycenter.Validate.Strings.Header.{is_token_char, var_request_uri, var_remote_addr, is_word}

pub data ProtocolClass : Type 0 where
  http tcp udp : ProtocolClass

pub data HashKey : Type 0 where
  by_remote_addr by_request_uri : HashKey
  by_header by_cookie : Text → Text → HashKey

abbrev is_http : ProtocolClass → Bool
is_http http = true
is_http _ = false

-- `header(`.
abbrev header_open : Text
header_open = 104 ∷ 101 ∷ 97 ∷ 100 ∷ 101 ∷ 114 ∷ 40 ∷ []

-- `cookie(`.
abbrev cookie_open : Text
cookie_open = 99 ∷ 111 ∷ 111 ∷ 107 ∷ 105 ∷ 101 ∷ 40 ∷ []

-- `http_`.
abbrev http_prefix : Text
http_prefix = 104 ∷ 116 ∷ 116 ∷ 112 ∷ 95 ∷ []

-- `cookie_`.
abbrev cookie_prefix : Text
cookie_prefix = 99 ∷ 111 ∷ 111 ∷ 107 ∷ 105 ∷ 101 ∷ 95 ∷ []

abbrev no_paren : ℕ → Bool
no_paren c = not ((c == 40) || (c == 41))

-- What `[^()]*` matches before the closing parenthesis.
abbrev inside : Option Text → Option Text
inside none = none
inside (some name) = if every no_paren name then some name else none

-- What follows a beginning of a text.
unfoldable pub after_start : Text → Text → Option Text
after_start [] t = some t
after_start (c ∷ p) [] = none
after_start (c ∷ p) (x ∷ t) = let rest = after_start p t in if x == c then rest else none

abbrev in_parens : Option Text → Option Text
in_parens none = none
in_parens (some t) = inside (before_end (41 ∷ []) t)

abbrev pub lower_ascii : ℕ → ℕ
lower_ascii c = if is_upper c then c + 32 else c

abbrev pub variable_char : ℕ → ℕ
variable_char c = if c == dash then underscore else lower_ascii c

abbrev is_header_char : ℕ → Bool
is_header_char c = is_alphanumeric c || (c == dash)

abbrev header_key : Text → Checked HashKey
header_key name =
    if not (leb 1 (length name) && every is_token_char name)
    then err invalid_hash_key
    else if not (leb 1 (length name) && every is_header_char name)
    then err invalid_hash_key
    else ok (by_header name (http_prefix ++ map variable_char name))

abbrev cookie_key : Text → Checked HashKey
cookie_key name =
    if not (leb 1 (length name) && every is_token_char name)
    then err invalid_hash_key
    else if not (leb 1 (length name) && every is_word name)
    then err invalid_hash_key
    else ok (by_cookie name (cookie_prefix ++ name))

abbrev named_key : Option Text → Option Text → Checked HashKey
named_key (some name) cookie = header_key name
named_key none (some name) = cookie_key name
named_key none none = err invalid_hash_key

unfoldable pub parse_hash_key : ProtocolClass → Text → Checked HashKey
parse_hash_key protocol spec =
    if text_eq spec var_remote_addr
    then ok by_remote_addr
    else if not (is_http protocol)
    then err invalid_hash_key
    else if text_eq spec var_request_uri
    then ok by_request_uri
    else named_key (in_parens (after_start header_open spec))
        (in_parens (after_start cookie_open spec))
