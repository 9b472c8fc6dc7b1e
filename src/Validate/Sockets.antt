-- ===== src/Validate/Sockets.antt =====
-- src/validate/sockets.ts: when two reservations contend for the same socket. The canonical text of
-- an IPv6 address is what the URL parser makes of it, which is a parameter: `none` where it throws.
use barycenter.Prelude.{
  ℕ, Bool, true, false, not, ◌&&◌, ◌||◌, Option, none, some, List, [], ◌∷◌, ◌++◌, leb, ltb, ◌==◌,
  if◌then◌else◌,
}
use barycenter.Prelude.Text.{Text, every, length, text_eq, starts_with, split, is_digit}
use barycenter.Validate.Ip.{Version, v4, v6, version_eq, dot, colon, ip_version}

pub data Transport : Type 0 where
  tcp_transport udp_transport : Transport

pub data ListenerProtocol : Type 0 where
  http https tls_passthrough tcp udp : ListenerProtocol

pub record BindAddress : Type 0 where
  pub family : Version
  pub addr : Text
  pub wildcard : Bool

pub record SocketReservation : Type 0 where
  pub key : Text
  pub protocol : ListenerProtocol
  pub bind : Text
  pub port : ℕ

-- The reason is what its text is made of.
pub record SocketConflict : Type 0 where
  pub a : Text
  pub b : Text
  pub transport : Transport
  pub port : ℕ
  pub bind_a : Text
  pub bind_b : Text

abbrev pub transports_of : ListenerProtocol → List Transport
transports_of udp = udp_transport ∷ []
transports_of _ = tcp_transport ∷ []

abbrev first_transport : List Transport → Transport
first_transport [] = tcp_transport
first_transport (t ∷ ts) = t

abbrev pub transport_of : ListenerProtocol → Transport
transport_of p = first_transport (transports_of p)

abbrev transport_eq : Transport → Transport → Bool
transport_eq tcp_transport tcp_transport = true
transport_eq udp_transport udp_transport = true
transport_eq _ _ = false

abbrev has_transport : Transport → List Transport → Bool
has_transport t [] = false
has_transport t (u ∷ us) = transport_eq u t || has_transport t us

abbrev pub transport_sets_overlap : List Transport → List Transport → Bool
transport_sets_overlap us [] = false
transport_sets_overlap us (b ∷ bs) = has_transport b us || transport_sets_overlap us bs

abbrev pub shares_transport : ListenerProtocol → ListenerProtocol → Bool
shares_transport a b = transport_sets_overlap (transports_of a) (transports_of b)

-- `ffff` in either case.
abbrev is_f : ℕ → Bool
is_f c = (c == 102) || (c == 70)

abbrev is_digits_3 : Text → Bool
is_digits_3 t = leb 1 (length t) && leb (length t) 3 && every is_digit t

abbrev is_four_numbers : Text → Bool
is_four_numbers t = (length (split dot t) == 4) && every is_digits_3 (split dot t)

-- `V4_MAPPED`: what stands after `::ffff:`, if it is four numbers of up to three digits.
unfoldable pub v4_mapped : Text → Option Text
v4_mapped (c1 ∷ c2 ∷ f1 ∷ f2 ∷ f3 ∷ f4 ∷ c3 ∷ rest) =
    if (c1 == colon)
      && (c2 == colon)
      && is_f f1
      && is_f f2
      && is_f f3
      && is_f f4
      && (c3 == colon)
      && is_four_numbers rest
    then some rest
    else none
v4_mapped _ = none

abbrev pub candidate_of : Text → Option Text → Text
candidate_of input none = input
candidate_of input (some mapped) = mapped

abbrev pub any_v4 : Text
any_v4 = 48 ∷ dot ∷ 48 ∷ dot ∷ 48 ∷ dot ∷ 48 ∷ []

abbrev pub any_v6 : Text
any_v6 = colon ∷ colon ∷ []

abbrev pub loopback_v4 : Text
loopback_v4 = 49 ∷ 50 ∷ 55 ∷ dot ∷ []

abbrev pub loopback_v6 : Text
loopback_v6 = colon ∷ colon ∷ 49 ∷ []

abbrev pub v6_address : Option Text → Option BindAddress
v6_address none = none
v6_address (some t) = some (record { family = v6; addr = t; wildcard = text_eq t any_v6 })

abbrev pub key_less : Text → Text → Bool
key_less s [] = false
key_less [] (y ∷ t) = true
key_less (x ∷ s) (y ∷ t) = ltb x y || ((x == y) && key_less s t)

abbrev pub http_or_stream : ListenerProtocol → ℕ
http_or_stream http = 1
http_or_stream https = 1
http_or_stream tcp = 2
http_or_stream tls_passthrough = 2
http_or_stream udp = 0

-- The engine's contexts, where 0 stands for none.
abbrev pub shares_wildcard_socket : ListenerProtocol → ListenerProtocol → Bool
shares_wildcard_socket a b = not (http_or_stream a == 0) && (http_or_stream a == http_or_stream b)

-- `sort` by key, which is stable.
unfoldable pub insert_by_key : SocketReservation → List SocketReservation → List SocketReservation
insert_by_key r [] = r ∷ []
insert_by_key r (x ∷ xs) = if key_less x.key r.key then x ∷ insert_by_key r xs else r ∷ x ∷ xs

unfoldable pub sort_by_key : List SocketReservation → List SocketReservation
sort_by_key [] = []
sort_by_key (r ∷ rs) = insert_by_key r (sort_by_key rs)

module _ (canonical : Text → Option Text) where
  abbrev pub address_of : Text → Option Version → Option BindAddress
  address_of t none = none
  address_of t (some v4) = some (record { family = v4; addr = t; wildcard = text_eq t any_v4 })
  address_of t (some v6) = v6_address (canonical t)

  -- `none` where the source returns an error.
  unfoldable pub normalize_bind : Text → Option BindAddress
  normalize_bind [] = none
  normalize_bind (c ∷ t) =
      let candidate = candidate_of (c ∷ t) (v4_mapped (c ∷ t)) in
      address_of candidate (ip_version candidate)

  abbrev pub is_loopback : Option BindAddress → Bool
  is_loopback none = false
  is_loopback (some a) =
      if a.wildcard
      then false
      else elim a.family [ v4 ↦ starts_with loopback_v4 a.addr | v6 ↦ text_eq a.addr loopback_v6 ]

  unfoldable pub is_loopback_bind : Text → Bool
  is_loopback_bind input = is_loopback (normalize_bind input)

  abbrev pub addresses_overlap :
      ListenerProtocol → ListenerProtocol → Option BindAddress → Option BindAddress → Bool
  addresses_overlap p q none y = false
  addresses_overlap p q (some x) none = false
  addresses_overlap p q (some x) (some y) =
      if not (version_eq x.family y.family)
      then false
      else if x.wildcard && y.wildcard
      then true
      else if not x.wildcard && not y.wildcard
      then text_eq x.addr y.addr
      else not (shares_wildcard_socket p q)

  unfoldable pub sockets_overlap : SocketReservation → SocketReservation → Bool
  sockets_overlap a b =
      if text_eq a.key b.key
      then false
      else if not (a.port == b.port)
      then false
      else if not (shares_transport a.protocol b.protocol)
      then false
      else addresses_overlap a.protocol b.protocol (normalize_bind a.bind) (normalize_bind b.bind)

  abbrev pub conflict_of : SocketReservation → SocketReservation → SocketConflict
  conflict_of a b = record {
    a = a.key;
    b = b.key;
    transport = transport_of a.protocol;
    port = a.port;
    bind_a = a.bind;
    bind_b = b.bind;
  }

  unfoldable pub conflicts_with : SocketReservation → List SocketReservation → List SocketConflict
  conflicts_with a [] = []
  conflicts_with a (b ∷ bs) =
      let rest = conflicts_with a bs in if sockets_overlap a b then conflict_of a b ∷ rest else rest

  unfoldable pub conflicts_in : List SocketReservation → List SocketConflict
  conflicts_in [] = []
  conflicts_in (a ∷ others) = conflicts_with a others ++ conflicts_in others

  unfoldable pub find_socket_conflicts : List SocketReservation → List SocketConflict
  find_socket_conflicts rs = conflicts_in (sort_by_key rs)
