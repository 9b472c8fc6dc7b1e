-- ===== src/Validate/Cidr.antt =====
-- src/validate/ip.ts, `ipBits` and `cidrCovers`: the number that an address is, the block that a CIDR
-- text names, and when one block covers another. On a number below 2 ^ width, `x & mask` with the
-- mask of `len` ones before `width - len` zeros is written out with a division and a remainder; a
-- shift by a group's width followed by `|` of a group is a product and a sum, and so is the last
-- `|`, whose low bits were cleared before.
use barycenter.Prelude.{
  ℕ, ◌+◌, ◌-◌, ◌*◌, ◌/◌, ◌%◌, ◌^◌, Bool, false, ◌&&◌, Option, none, some, List, [], ◌∷◌, ◌++◌, leb,
  ◌==◌, if◌then◌else◌,
}
use barycenter.Prelude.Text.{
  Text, length, copies, fold_left, includes, split, cut_double, decimal_value, hexadecimal_value,
}
use barycenter.Validate.Ip.{
  Version, v4, v6, version_eq, width_of, dot, colon, percent, parts_of, ip_version, cidr_version,
  before_slash, after_slash,
}

abbrev pub bits_of_octets : List Text → ℕ
bits_of_octets ps = fold_left (λ n o. n * 2 ^ 8 + decimal_value o) 0 ps

abbrev pub bits_of_hextets : List Text → ℕ
bits_of_hextets ps = fold_left (λ n g. n * 2 ^ 16 + hexadecimal_value g) 0 ps

-- What stands after the last colon, and what stands before it with the colon.
abbrev last_colon : Text → Text × Text
last_colon [] = ([], [])
last_colon (c ∷ t) =
    let rest = last_colon t in
    if includes colon t
    then (c ∷ rest.0, rest.1)
    else if c == colon
    then (c ∷ [], t)
    else ([], c ∷ t)

-- The eight groups, with the zeros of a `::`.
unfoldable pub groups_of : Text → List Text
groups_of a = elim (cut_double colon a) [
  | none ↦ split colon a ++ copies (8 - length (split colon a)) (48 ∷ [])
  | some (h, t) ↦
      parts_of h ++ copies (8 - length (parts_of h) - length (parts_of t)) (48 ∷ []) ++ parts_of t
]

unfoldable pub v6_bits : Text → ℕ
v6_bits addr =
    let (front, last) = last_colon addr in
    if includes dot last
    then bits_of_hextets (groups_of (front ++ (48 ∷ colon ∷ 48 ∷ []))) / 2 ^ 32 * 2 ^ 32
      + bits_of_octets (split dot last)
    else bits_of_hextets (groups_of addr)

abbrev pub bits_as : Text → Option Version → Option (Version × ℕ)
bits_as addr none = none
bits_as addr (some v4) = some (v4, bits_of_octets (split dot addr))
bits_as addr (some v6) = some (v6, v6_bits addr)

unfoldable pub ip_bits : Text → Option (Version × ℕ)
ip_bits addr = if includes percent addr then none else bits_as addr (ip_version addr)

pub record Block : Type 0 where
  pub version : Version
  pub net : ℕ
  pub len : ℕ

-- `n & mask`, where the mask has `len` ones and then zeros up to the width.
abbrev pub masked : ℕ → ℕ → ℕ → ℕ
masked width len n = n / 2 ^ (width - len) % 2 ^ len * 2 ^ (width - len)

abbrev pub prefix_length : Version → Option Text → ℕ
prefix_length v none = width_of v
prefix_length v (some t) = decimal_value t

abbrev pub block_of : Option Text → Option (Version × ℕ) → Option Block
block_of prefix none = none
block_of prefix (some (v, n)) = some (record {
  version = v;
  net = masked (width_of v) (prefix_length v prefix) n;
  len = prefix_length v prefix;
})

abbrev pub parse_if : Text → Option Version → Option Block
parse_if s none = none
parse_if s (some v) = block_of (after_slash s) (ip_bits (before_slash s))

-- `parse` of `cidrCovers`.
unfoldable pub parse_block : Text → Option Block
parse_block s = parse_if s (cidr_version s)

abbrev pub covers : Block → Block → Bool
covers o i =
    version_eq o.version i.version
    && leb o.len i.len
    && (masked (width_of o.version) o.len i.net == o.net)

abbrev pub covers_if : Option Block → Option Block → Bool
covers_if (some o) (some i) = covers o i
covers_if _ _ = false

unfoldable pub cidr_covers : Text → Text → Bool
cidr_covers outer inner = covers_if (parse_block outer) (parse_block inner)
