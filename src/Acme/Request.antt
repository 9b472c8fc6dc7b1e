-- ===== src/Acme/Request.antt =====
-- src/acme/der.ts, `createCsr`: what is read back of a certificate request.
use mathlib.Core.Path.{subst}
use barycenter.Prelude.{
  ℕ, ◌≡◌, Bool, true, false, Option, some, List, [], ◌∷◌, ◌++◌, arith, if◌then◌else◌,
}
use barycenter.Prelude.Text.{Text, length}
use barycenter.Acme.Der.{
  Bytes, ◌>>=◌, tlv, seq, set, oid, integer, integer_of, bit_string, octet_string, utf8,
  general_names, Platform, common_name, attributes, request_info, create_csr, tag_integer,
  tag_bit_string, tag_octet_string, tag_oid, tag_utf8, tag_sequence, tag_set, oid_cn, oid_san,
  oid_ext_request, oid_ecdsa_sha256,
}
use barycenter.Acme.Names.{read_all, texts_of, general_names-read}
use barycenter.Acme.Open.{
  contents, after, IsElement, append_nil, contents_last, contents_lem, after_lem, bind-some,
  tlv-ReadsBack, oid-IsElement,
}

-- The attributes of a request, `[0]`.
abbrev pub tag_attributes : ℕ
tag_attributes = 160

-- The alternative names that the attributes ask for: an attribute's set of one list of extensions,
-- which has one extension, whose octets are the sequence of names.
abbrev pub names_in : ℕ → Bytes → Option (List (ℕ × Bytes))
names_in n extra =
    contents tag_attributes extra
    >>= contents tag_sequence
    >>= after tag_oid
    >>= contents tag_set
    >>= contents tag_sequence
    >>= contents tag_sequence
    >>= after tag_oid
    >>= contents tag_octet_string
    >>= contents tag_sequence
    >>= read_all n

-- The common name of a subject.
abbrev pub common_name_in : Bytes → Option Bytes
common_name_in subject =
    contents tag_sequence subject
    >>= contents tag_set
    >>= contents tag_sequence
    >>= after tag_oid
    >>= contents tag_utf8

-- The subject has the first domain as its common name, or is empty.
abbrev pub IsSubject : (Text → Bytes) → Bool → List Text → Bytes → Type 0
IsSubject utf8_of true [] subject = ⊥
IsSubject utf8_of true (d ∷ ds) subject = common_name_in subject ≡ some (utf8_of d)
IsSubject utf8_of false ds subject = contents tag_sequence subject ≡ some []

module _ (p : Platform) where
  -- The information: a version, the subject, the public key as it is given, and the attributes.
  pub record IsInfo (with_name : Bool) (ds : List Text) (info : Bytes) : Type 0 where
    pub subject : Bytes
    pub extra : Bytes
    pub versioned :
        (contents tag_sequence info >>= after tag_integer) ≡ some (subject ++ (p.spki ++ extra))
    pub keyed : after tag_sequence (subject ++ (p.spki ++ extra)) ≡ some (p.spki ++ extra)
    pub called : IsSubject p.utf8_of with_name ds subject
    pub named : names_in (length ds) extra ≡ some (texts_of p.utf8_of ds)

  -- A request: the information, an algorithm, and the signature over the information's very bytes.
  pub record IsRequest (with_name : Bool) (ds : List Text) (der : Bytes) : Type 0 where
    pub info : Bytes
    pub tail : Bytes
    pub enclosed : contents tag_sequence der ≡ some (info ++ tail)
    pub parted : after tag_sequence (info ++ tail) ≡ some tail
    pub signed : (after tag_sequence tail >>= contents tag_bit_string) ≡ some (0 ∷ p.sign info)
    pub informed : IsInfo with_name ds info

  common_name-read :
      (d : Text) (subject : Bytes)
      → common_name p d ≡ some subject
      → ((body : Bytes) × IsElement tag_sequence body subject)
        × (common_name_in subject ≡ some (p.utf8_of d))
  common_name-read d subject made =
      let (kind, is_kind, e1) = bind-some (oid p.number_of oid_cn) _ subject made in
      let (name, is_name, e2) = bind-some (utf8 p.utf8_of d) _ subject e1 in
      let (pair, is_pair, e3) = bind-some (seq (kind ∷ name ∷ [])) _ subject e2 in
      let (part, is_part, e4) = bind-some (set (pair ∷ [])) _ subject e3 in
      let (k, kinded) = oid-IsElement p.number_of oid_cn kind is_kind in
      let whole = tlv-ReadsBack tag_sequence (part ++ []) subject e4 in
      (
        (part ++ [], whole),
        rw
            (
              contents_lem tag_sequence (part ++ []) subject whole,
              contents_last tag_set (pair ++ []) part (tlv-ReadsBack tag_set _ part is_part),
              contents_last tag_sequence (kind ++ (name ++ [])) pair
                  (tlv-ReadsBack tag_sequence _ pair is_pair),
              after_lem tag_oid k kind (name ++ []) kinded,
            )
            (contents_last tag_utf8 (p.utf8_of d) name (tlv-ReadsBack tag_utf8 _ name is_name)),
      )

  IsSubject-read :
      (with_name : Bool) (d : Text) (ds : List Text) (subject : Bytes)
      → (if with_name then common_name p d else seq []) ≡ some subject
      → ((body : Bytes) × IsElement tag_sequence body subject)
        × IsSubject p.utf8_of with_name (d ∷ ds) subject
  IsSubject-read true d ds subject made = common_name-read d subject made
  IsSubject-read false d ds subject made =
      let whole = tlv-ReadsBack tag_sequence [] subject made in
      (([], whole), contents_lem tag_sequence [] subject whole)

  attributes-read :
      (ds : List Text) (extra : Bytes)
      → attributes p ds ≡ some extra
      → names_in (length ds) extra ≡ some (texts_of p.utf8_of ds)
  attributes-read ds extra made =
      let (octets, is_octets, e1) =
        bind-some (general_names p.utf8_of ds >>= octet_string) _ extra made in
      let (names, is_names, e2) =
        bind-some (general_names p.utf8_of ds) octet_string octets is_octets in
      let (kind, is_kind, e3) = bind-some (oid p.number_of oid_san) _ extra e1 in
      let (extension, is_extension, e4) = bind-some (seq (kind ∷ octets ∷ [])) _ extra e3 in
      let (extensions, is_extensions, e5) = bind-some (seq (extension ∷ [])) _ extra e4 in
      let (values, is_values, e6) = bind-some (set (extensions ∷ [])) _ extra e5 in
      let (request, is_request, e7) = bind-some (oid p.number_of oid_ext_request) _ extra e6 in
      let (body, is_body, e8) = bind-some (seq (request ∷ values ∷ [])) _ extra e7 in
      let (k, kinded) = oid-IsElement p.number_of oid_san kind is_kind in
      let (r, requested) = oid-IsElement p.number_of oid_ext_request request is_request in
      let (found, listed, all) = general_names-read p.utf8_of ds names is_names in
      rw
        (
          contents_lem tag_attributes body extra (tlv-ReadsBack tag_attributes body extra e8),
          contents_lem tag_sequence (request ++ (values ++ [])) body
              (tlv-ReadsBack tag_sequence _ body is_body),
          after_lem tag_oid r request (values ++ []) requested,
          contents_last tag_set (extensions ++ []) values
              (tlv-ReadsBack tag_set _ values is_values),
          contents_last tag_sequence (extension ++ []) extensions
              (tlv-ReadsBack tag_sequence _ extensions is_extensions),
          contents_last tag_sequence (kind ++ (octets ++ [])) extension
              (tlv-ReadsBack tag_sequence _ extension is_extension),
          after_lem tag_oid k kind (octets ++ []) kinded,
          contents_last tag_octet_string names octets
              (tlv-ReadsBack tag_octet_string names octets e2),
          contents_lem tag_sequence found names listed,
        )
        all

  request_info-read :
      (with_name : Bool) (ds : List Text) (info : Bytes)
      → request_info p with_name ds ≡ some info
      → ((body : Bytes) × IsElement tag_sequence body info) × IsInfo with_name ds info
  unfolding request_info integer
  request_info-read with_name [] info made = absurd (ground arith)
  request_info-read with_name (d ∷ ds) info made =
      let (subject, is_subject, e1) =
        bind-some (if with_name then common_name p d else seq []) _ info made in
      let (extra, is_extra, e2) = bind-some (attributes p (d ∷ ds)) _ info e1 in
      let (version, is_version, e3) = bind-some (integer_of 0) _ info e2 in
      let ((sb, sub), called) = IsSubject-read with_name d ds subject is_subject in
      let body = version ++ (subject ++ (p.spki ++ extra)) in
      let e4 =
        subst (λ x. tlv tag_sequence (version ++ (subject ++ (p.spki ++ x))) ≡ some info)
          (append_nil extra) e3 in
      let whole = tlv-ReadsBack tag_sequence body info e4 in
      (
        (body, whole),
        record {
          subject = subject;
          extra = extra;
          versioned = rw (contents_lem tag_sequence body info whole) (
              after_lem tag_integer (0 ∷ []) version (subject ++ (p.spki ++ extra))
                (tlv-ReadsBack tag_integer _ version is_version));
          keyed = after_lem tag_sequence sb subject (p.spki ++ extra) sub;
          called = called;
          named = attributes-read (d ∷ ds) extra is_extra;
        },
      )

  -- A certificate request that is made is read back as what was asked for, in the standard's order
  -- and with nothing after it: an information, an algorithm, and the signature of the bytes of that
  -- information; the information is a version, a subject, the public key as it is given and the
  -- attributes; the subject is empty or, if it is asked for, has the first domain as its common
  -- name; and the attributes hold one alternative name for each domain, in the domains' order.
  pub create_csr-read :
      (with_name : Bool) (ds : List Text) (der : Bytes)
      → create_csr p with_name ds ≡ some der
      → IsRequest with_name ds der
  unfolding create_csr bit_string
  create_csr-read with_name ds der made =
      let (info, is_info, e1) = bind-some (request_info p with_name ds) _ der made in
      let (kind, is_kind, e2) = bind-some (oid p.number_of oid_ecdsa_sha256) _ der e1 in
      let (algorithm, is_algorithm, e3) = bind-some (seq (kind ∷ [])) _ der e2 in
      let (signature, is_signature, e4) =
        bind-some (tlv tag_bit_string (0 ∷ p.sign info)) _ der e3 in
      let ((ib, inf), informed) = request_info-read with_name ds info is_info in
      let tail = algorithm ++ (signature ++ []) in
      record {
        info = info;
        tail = tail;
        enclosed =
            contents_lem tag_sequence (info ++ tail) der
              (tlv-ReadsBack tag_sequence (info ++ tail) der e4);
        parted = after_lem tag_sequence ib info tail inf;
        signed =
            rw
              (after_lem tag_sequence (kind ++ []) algorithm (signature ++ [])
                (tlv-ReadsBack tag_sequence _ algorithm is_algorithm))
              (contents_last tag_bit_string (0 ∷ p.sign info) signature
                (tlv-ReadsBack tag_bit_string _ signature is_signature));
        informed = informed;
      }
