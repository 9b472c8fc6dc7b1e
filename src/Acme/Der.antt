-- ===== src/Acme/Der.antt =====
-- src/acme/der.ts: the DER encoder of certificate requests. A buffer is the list of its bytes;
-- `none` is where the source throws. UTF-8, the key's public part and the signature are the
-- platform's, and so parameters; so is `Number`, which gives `none` for what is no natural number.
use Prim.Native.Nat.{bit_or}
use barycenter.Prelude.{
  ℕ, zero, suc, ◌+◌, ◌*◌, ◌/◌, ◌%◌, ◌^◌, Bool, Option, none, some, List, [], ◌∷◌, ◌++◌, leb, ltb,
  ◌==◌, if◌then◌else◌,
}
use barycenter.Prelude.Text.{Text, length, split}

abbrev pub Bytes : Type 0
Bytes = List ℕ

infixl 5 ◌>>=◌
abbrev pub ◌>>=◌ : {A B : Type 0} → Option A → (A → Option B) → Option B
(some a) >>= f = f a
none >>= f = none

-- The length octets.
unfoldable pub len : ℕ → Option Bytes
len n =
    if ltb n 128
    then some (n ∷ [])
    else if leb n 255
    then some (129 ∷ n ∷ [])
    else if leb n 65535
    then some (130 ∷ n / 2 ^ 8 ∷ n % 2 ^ 8 ∷ [])
    else if leb n 16777215
    then some (131 ∷ n / 2 ^ 16 ∷ n / 2 ^ 8 % 2 ^ 8 ∷ n % 2 ^ 8 ∷ [])
    else none

abbrev pub headed : ℕ → Bytes → Option Bytes → Option Bytes
headed tag body none = none
headed tag body (some size) = some (tag % 2 ^ 8 ∷ (size ++ body))

unfoldable pub tlv : ℕ → Bytes → Option Bytes
tlv tag body = headed tag body (len (length body))

abbrev pub concat : List Bytes → Bytes
concat [] = []
concat (p ∷ ps) = p ++ concat ps

abbrev pub tag_integer : ℕ
tag_integer = 2

abbrev pub tag_bit_string : ℕ
tag_bit_string = 3

abbrev pub tag_octet_string : ℕ
tag_octet_string = 4

abbrev pub tag_oid : ℕ
tag_oid = 6

abbrev pub tag_utf8 : ℕ
tag_utf8 = 12

abbrev pub tag_sequence : ℕ
tag_sequence = 48

abbrev pub tag_set : ℕ
tag_set = 49

abbrev pub seq : List Bytes → Option Bytes
seq parts = tlv tag_sequence (concat parts)

abbrev pub set : List Bytes → Option Bytes
set parts = tlv tag_set (concat parts)

abbrev pub or_zero : Bytes → Bytes
or_zero [] = 0 ∷ []
or_zero (b ∷ bs) = b ∷ bs

-- A zero in front keeps a high bit from being a sign.
abbrev pub unsigned : Bytes → Bytes
unsigned [] = []
unsigned (b ∷ bs) = if b / 2 ^ 7 % 2 == 1 then 0 ∷ b ∷ bs else b ∷ bs

unfoldable pub integer : Bytes → Option Bytes
integer value = tlv tag_integer (unsigned (or_zero value))

-- A number is its lowest byte.
abbrev pub integer_of : ℕ → Option Bytes
integer_of n = integer (n % 2 ^ 8 ∷ [])

-- The groups of seven bits, the highest first, in front of those found already. `>>>` works on the
-- lowest 32 bits, so that five rounds always end it.
unfoldable pub chunks : ℕ → ℕ → List ℕ → List ℕ
chunks zero v found = found
chunks (suc rounds) v found =
    let more = chunks rounds (v % 2 ^ 32 / 2 ^ 7) (v % 2 ^ 7 ∷ found) in
    if v % 2 ^ 32 / 2 ^ 7 == 0 then v % 2 ^ 7 ∷ found else more

-- The high bit on all but the last.
abbrev pub continued : List ℕ → List ℕ
continued [] = []
continued (c ∷ []) = c ∷ []
continued (c ∷ d ∷ cs) = (c + 2 ^ 7) ∷ continued (d ∷ cs)

unfoldable pub base_128 : ℕ → Bytes
base_128 v = continued (chunks 5 v [])

abbrev pub arcs_bytes : List ℕ → Bytes
arcs_bytes [] = []
arcs_bytes (a ∷ arcs) = base_128 a ++ arcs_bytes arcs

abbrev pub numbers : (Text → Option ℕ) → List Text → Option (List ℕ)
numbers number_of [] = some []
numbers number_of (t ∷ ts) = number_of t >>= λ n. numbers number_of ts >>= λ ns. some (n ∷ ns)

unfoldable pub oid_of : List ℕ → Option Bytes
oid_of (a ∷ b ∷ arcs) = tlv tag_oid ((a * 40 + b) % 2 ^ 8 ∷ arcs_bytes arcs)
oid_of _ = none

abbrev pub oid : (Text → Option ℕ) → Text → Option Bytes
oid number_of dotted = numbers number_of (split 46 dotted) >>= oid_of

unfoldable pub bit_string : Bytes → Option Bytes
bit_string body = tlv tag_bit_string (0 ∷ body)

abbrev pub octet_string : Bytes → Option Bytes
octet_string body = tlv tag_octet_string body

abbrev pub context : ℕ → Bytes → Option Bytes
context n body = tlv (bit_or 160 n) body

-- An alternative name of a host, `dNSName`.
abbrev pub tag_dns_name : ℕ
tag_dns_name = 130

module _ (utf8_of : Text → Bytes) where
  abbrev pub utf8 : Text → Option Bytes
  utf8 s = tlv tag_utf8 (utf8_of s)

  unfoldable pub dns_names : List Text → Option (List Bytes)
  dns_names [] = some []
  dns_names (d ∷ ds) =
      tlv tag_dns_name (utf8_of d) >>= λ name. dns_names ds >>= λ names. some (name ∷ names)

  unfoldable pub general_names : List Text → Option Bytes
  general_names domains = dns_names domains >>= λ names. seq names

-- `2.5.4.3`.
abbrev pub oid_cn : Text
oid_cn = 50 ∷ 46 ∷ 53 ∷ 46 ∷ 52 ∷ 46 ∷ 51 ∷ []

-- `1.2.840.113549.1.9.14`.
abbrev pub oid_ext_request : Text
oid_ext_request =
    49 ∷ 46 ∷ 50 ∷ 46 ∷ 56 ∷ 52 ∷ 48 ∷ 46 ∷ 49 ∷ 49 ∷ 51 ∷ 53 ∷ 52 ∷ 57 ∷ 46 ∷ 49 ∷ 46 ∷ 57 ∷ 46
    ∷ 49 ∷ 52 ∷ []

-- `2.5.29.17`.
abbrev pub oid_san : Text
oid_san = 50 ∷ 46 ∷ 53 ∷ 46 ∷ 50 ∷ 57 ∷ 46 ∷ 49 ∷ 55 ∷ []

-- `1.2.840.10045.4.3.2`.
abbrev pub oid_ecdsa_sha256 : Text
oid_ecdsa_sha256 =
    49 ∷ 46 ∷ 50 ∷ 46 ∷ 56 ∷ 52 ∷ 48 ∷ 46 ∷ 49 ∷ 48 ∷ 48 ∷ 52 ∷ 53 ∷ 46 ∷ 52 ∷ 46 ∷ 51 ∷ 46 ∷ 50
    ∷ []

-- What the encoder is given: the platform's functions and the key's two.
pub record Platform : Type 0 where
  pub utf8_of : Text → Bytes
  pub number_of : Text → Option ℕ
  pub spki : Bytes
  pub sign : Bytes → Bytes

module _ (p : Platform) where
  abbrev pub common_name : Text → Option Bytes
  common_name domain = oid p.number_of oid_cn >>= λ kind. utf8 p.utf8_of domain >>= λ name.
      seq (kind ∷ name ∷ []) >>= λ pair. set (pair ∷ []) >>= λ part. seq (part ∷ [])

  abbrev pub attributes : List Text → Option Bytes
  attributes domains = general_names p.utf8_of domains >>= octet_string >>= λ names.
      oid p.number_of oid_san >>= λ kind. seq (kind ∷ names ∷ []) >>= λ extension.
      seq (extension ∷ []) >>= λ extensions. set (extensions ∷ []) >>= λ values.
      oid p.number_of oid_ext_request >>= λ request.
      seq (request ∷ values ∷ []) >>= λ body. context 0 body

  unfoldable pub request_info : Bool → List Text → Option Bytes
  request_info with_name [] = none
  request_info with_name (d ∷ ds) = (if with_name then common_name d else seq []) >>= λ subject.
      attributes (d ∷ ds) >>= λ extra.
      integer_of 0 >>= λ version. seq (version ∷ subject ∷ p.spki ∷ extra ∷ [])

  -- The signature is over the information that it stands behind.
  unfoldable pub create_csr : Bool → List Text → Option Bytes
  create_csr with_name domains = request_info with_name domains >>= λ info.
      oid p.number_of oid_ecdsa_sha256 >>= λ kind. seq (kind ∷ []) >>= λ algorithm.
      bit_string (p.sign info) >>= λ signature. seq (info ∷ algorithm ∷ signature ∷ [])
