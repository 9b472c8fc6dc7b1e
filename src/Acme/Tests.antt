-- ===== src/Acme/Tests.antt =====
-- Concrete encodings of src/acme/der.ts.
use barycenter.Prelude.{◌≡◌, refl, true, Option, none, some, List, [], ◌∷◌, ◌++◌, arith, ◌%◌, ◌^◌}
use barycenter.Prelude.Text.{Text, length, decimal_value, split}
use barycenter.Acme.Der.{
  Bytes, len, tlv, chunks, base_128, oid_of, integer, bit_string, dns_names, general_names,
  tag_sequence, Platform, request_info, create_csr,
}
use barycenter.Acme.Read.{ReadsBack, read_tlv-tlv}
use barycenter.Acme.Arcs.{read_arc, read_arc-base_128}
use barycenter.Acme.Names.{read_all, texts_of, general_names-read}
use barycenter.Acme.Request.{IsRequest, create_csr-read}

abbrev short_body : Bytes
short_body = 1 ∷ 2 ∷ 3 ∷ []

read_tlv-tlv_example : (out : Bytes) × (tlv 48 short_body ≡ some out) × ReadsBack 48 short_body out
read_tlv-tlv_example = read_tlv-tlv 48 short_body (omega arith)

read_arc-base_128_example :
    read_arc 0 (base_128 113549 ++ short_body) ≡ some (113549 % 2 ^ 32, short_body)
read_arc-base_128_example = read_arc-base_128 113549 short_body

-- `a.b`, in a platform that writes each character as one byte.
abbrev domain : Text
domain = 97 ∷ 46 ∷ 98 ∷ []

abbrev domains : List Text
domains = domain ∷ domain ∷ []

abbrev plain_text : Text → Bytes
plain_text [] = []
plain_text (c ∷ t) = c % 256 ∷ plain_text t

abbrev bytes_of : Option Bytes → Bytes
bytes_of none = []
bytes_of (some bs) = bs

abbrev names : Bytes
names = bytes_of (general_names plain_text domains)

general_names-read_example :
    (body : Bytes) × ReadsBack tag_sequence body names
    × (read_all (length domains) body ≡ some (texts_of plain_text domains))
unfolding general_names dns_names tlv len
general_names-read_example = general_names-read plain_text domains names refl

abbrev platform : Platform
platform = record {
  utf8_of = plain_text;
  number_of = λ t. some (decimal_value t);
  spki = 48 ∷ 0 ∷ [];
  sign = λ m. 1 ∷ [];
}

abbrev csr : Bytes
csr = bytes_of (create_csr platform true domains)

create_csr-read_example : IsRequest platform true domains csr
unfolding create_csr request_info general_names dns_names tlv len oid_of base_128 chunks integer
    bit_string split
create_csr-read_example = create_csr-read platform true domains csr refl
