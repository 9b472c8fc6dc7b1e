-- ===== src/Validate/Contention.antt =====
-- src/validate/sockets.ts: contention for a socket has no direction, and the search for conflicts
-- finds one if there is one.
use barycenter.Prelude.{
  ◌≡◌, refl, ◌∙◌, ◌↔◌, inl, inr, true, false, arith, Option, none, some, List, [], ◌∷◌, ◌++◌, IsAll,
  Bool-cases,
}
use barycenter.Prelude.Text.{Text, text_eq}
use barycenter.Validate.Sockets.{
  BindAddress, ListenerProtocol, SocketReservation, shares_transport, shares_wildcard_socket,
  key_less, insert_by_key, sort_by_key, normalize_bind, addresses_overlap, sockets_overlap,
  conflicts_with, conflicts_in, find_socket_conflicts,
}

pub text_eq_iff : (s t : Text) → (text_eq s t ≡ true) ↔ (s ≡ t)
text_eq_iff [] [] = ground arith
text_eq_iff [] (y ∷ t) = ground arith
text_eq_iff (x ∷ s) [] = ground arith
text_eq_iff (x ∷ s) (y ∷ t) = ground (arith, text_eq_iff s t)

pub text_eq_comm : (s t : Text) → text_eq s t ≡ text_eq t s
text_eq_comm s t = ground (arith, text_eq_iff s t, text_eq_iff t s)

shares_transport_comm : (p q : ListenerProtocol) → shares_transport p q ≡ shares_transport q p
shares_transport_comm p q = ground arith

shares_wildcard_comm :
    (p q : ListenerProtocol) → shares_wildcard_socket p q ≡ shares_wildcard_socket q p
shares_wildcard_comm p q = ground arith

module _ (canonical : Text → Option Text) where
  addresses_comm :
      (p q : ListenerProtocol) (x y : Option BindAddress)
      → addresses_overlap canonical p q x y ≡ addresses_overlap canonical q p y x
  addresses_comm p q none none = refl
  addresses_comm p q none (some y) = refl
  addresses_comm p q (some x) none = refl
  addresses_comm p q (some x) (some y) =
      ground (arith, text_eq_comm x.addr y.addr, shares_wildcard_comm p q)

  -- Two reservations contend for a socket in either order or in none, and none contends with itself.
  pub sockets_overlap_comm :
      (a b : SocketReservation)
      → (sockets_overlap canonical a b ≡ sockets_overlap canonical b a)
        × (sockets_overlap canonical a a ≡ false)
  unfolding sockets_overlap
  sockets_overlap_comm a b = (
    ground (
      arith,
      text_eq_comm a.key b.key,
      shares_transport_comm a.protocol b.protocol,
      addresses_comm a.protocol b.protocol (normalize_bind canonical a.bind)
          (normalize_bind canonical b.bind),
    ),
    rw ((text_eq_iff a.key a.key).1 refl) refl,
  )

  abbrev Free : SocketReservation → SocketReservation → Type 0
  Free a b = sockets_overlap canonical a b ≡ false

  -- None of a list contends with a later one.
  IsFreeInOrder : List SocketReservation → Type 0
  IsFreeInOrder [] = Unit {0}
  IsFreeInOrder (a ∷ rest) = IsAll (Free a) rest × IsFreeInOrder rest

  conflicts_with-nil :
      (a : SocketReservation) (bs : List SocketReservation)
      → (conflicts_with canonical a bs ≡ []) ↔ IsAll (Free a) bs
  unfolding conflicts_with
  conflicts_with-nil a [] = (λ e. tt, λ h. refl)
  conflicts_with-nil a (b ∷ bs) = elim (Bool-cases (sockets_overlap canonical a b)) [
    | inl contend ↦ (λ e. absurd (ground arith), λ h. absurd (ground (arith, h.0)))
    | inr free ↦ (
      λ e. (free, (conflicts_with-nil a bs).0 (ground arith)),
      λ h. rw free ((conflicts_with-nil a bs).1 h.1),
    )
  ]

  append-nil : {A : Type 0} (xs ys : List A) → (xs ++ ys ≡ []) ↔ ((xs ≡ []) × (ys ≡ []))
  append-nil [] ys = ground arith
  append-nil (x ∷ xs) ys = ground arith

  conflicts_in-nil :
      (rs : List SocketReservation) → (conflicts_in canonical rs ≡ []) ↔ IsFreeInOrder rs
  unfolding conflicts_in IsFreeInOrder
  conflicts_in-nil [] = (λ e. tt, λ h. refl)
  conflicts_in-nil (a ∷ rest) = (
    λ e.
        let parts =
          (append-nil (conflicts_with canonical a rest) (conflicts_in canonical rest)).0 e in
        ((conflicts_with-nil a rest).0 parts.0, (conflicts_in-nil rest).0 parts.1),
    λ h.
        (append-nil (conflicts_with canonical a rest) (conflicts_in canonical rest)).1
          ((conflicts_with-nil a rest).1 h.0, (conflicts_in-nil rest).1 h.1),
  )

  IsAll-insert :
      (P : SocketReservation → Type 0) (r : SocketReservation) (xs : List SocketReservation)
      → IsAll P (insert_by_key r xs) ↔ (P r × IsAll P xs)
  unfolding insert_by_key
  IsAll-insert P r [] = (λ h. h, λ h. h)
  IsAll-insert P r (x ∷ xs) = elim (Bool-cases (key_less x.key r.key)) [
    | inl less ↦ rw less (
      λ h. let rest = (IsAll-insert P r xs).0 h.1 in (rest.0, (h.0, rest.1)),
      λ h. (h.1.0, (IsAll-insert P r xs).1 (h.0, h.1.1)),
    )
    | inr other ↦ rw other (λ h. h, λ h. h)
  ]

  Free-comm : (a b : SocketReservation) → Free a b → Free b a
  Free-comm a b h = (sockets_overlap_comm b a).0 ∙ h

  IsFreeInOrder-insert :
      (r : SocketReservation) (xs : List SocketReservation)
      → IsFreeInOrder (insert_by_key r xs) ↔ IsFreeInOrder (r ∷ xs)
  unfolding insert_by_key IsFreeInOrder
  IsFreeInOrder-insert r [] = (λ h. h, λ h. h)
  IsFreeInOrder-insert r (x ∷ xs) = elim (Bool-cases (key_less x.key r.key)) [
    | inl less ↦ rw less (
      λ h.
          let first = (IsAll-insert (Free x) r xs).0 h.0 in
          let rest = (IsFreeInOrder-insert r xs).0 h.1 in
          ((Free-comm x r first.0, rest.0), (first.1, rest.1)),
      λ h. (
        (IsAll-insert (Free x) r xs).1 (Free-comm r x h.0.0, h.1.0),
        (IsFreeInOrder-insert r xs).1 (h.0.1, h.1.1),
      ),
    )
    | inr other ↦ rw other (λ h. h, λ h. h)
  ]

  IsFreeInOrder-sort :
      (rs : List SocketReservation) → IsFreeInOrder (sort_by_key rs) ↔ IsFreeInOrder rs
  unfolding sort_by_key IsFreeInOrder
  IsFreeInOrder-sort [] = (λ h. h, λ h. h)
  IsFreeInOrder-sort (r ∷ rs) = (
    λ h.
        let parts = (IsFreeInOrder-insert r (sort_by_key rs)).0 h in
        ((IsAll-sort (Free r) rs).0 parts.0, (IsFreeInOrder-sort rs).0 parts.1),
    λ h.
        (IsFreeInOrder-insert r (sort_by_key rs)).1
          ((IsAll-sort (Free r) rs).1 h.0, (IsFreeInOrder-sort rs).1 h.1),
  )
    where
      IsAll-sort :
          (P : SocketReservation → Type 0) (rs : List SocketReservation)
          → IsAll P (sort_by_key rs) ↔ IsAll P rs
      IsAll-sort P [] = (λ h. h, λ h. h)
      IsAll-sort P (r ∷ rs) = (
        λ h.
            let parts = (IsAll-insert P r (sort_by_key rs)).0 h in
            (parts.0, (IsAll-sort P rs).0 parts.1),
        λ h. (IsAll-insert P r (sort_by_key rs)).1 (h.0, (IsAll-sort P rs).1 h.1),
      )

  IsAll-zip :
      (P Q R : SocketReservation → Type 0) (xs : List SocketReservation)
      → ((x : SocketReservation) → P x → Q x → R x)
      → IsAll P xs
      → IsAll Q xs
      → IsAll R xs
  IsAll-zip P Q R [] f h k = tt
  IsAll-zip P Q R (x ∷ xs) f h k = (f x h.0 k.0, IsAll-zip P Q R xs f h.1 k.1)

  -- None of a list contends with any.
  abbrev pub IsFree : List SocketReservation → List SocketReservation → Type 0
  IsFree rs all = IsAll (λ a. IsAll (Free a) all) rs

  IsFree-iff : (rs : List SocketReservation) → IsFreeInOrder rs ↔ IsFree rs rs
  unfolding IsFreeInOrder
  IsFree-iff [] = (λ h. h, λ h. h)
  IsFree-iff (a ∷ rest) = (
    λ h. (
      ((sockets_overlap_comm a a).1, h.0),
      IsAll-zip (Free a) (λ b. IsAll (Free b) rest) (λ b. IsAll (Free b) (a ∷ rest)) rest
          (λ b first others. (Free-comm a b first, others)) h.0 ((IsFree-iff rest).0 h.1),
    ),
    λ h. (
      h.0.1,
      (IsFree-iff rest).1 (
          IsAll-zip (λ b. IsAll (Free b) (a ∷ rest)) (λ b. IsAll (Free b) (a ∷ rest))
            (λ b. IsAll (Free b) rest) rest (λ b all _. all.1) h.1 h.1),
    ),
  )

  -- `findSocketConflicts` finds nothing exactly if no two of the reservations, in whatever order they
  -- are given, contend for a socket.
  pub find_socket_conflicts-nil :
      (rs : List SocketReservation) → (find_socket_conflicts canonical rs ≡ []) ↔ IsFree rs rs
  unfolding find_socket_conflicts
  find_socket_conflicts-nil rs = (
    λ e. (IsFree-iff rs).0 ((IsFreeInOrder-sort rs).0 ((conflicts_in-nil (sort_by_key rs)).0 e)),
    λ h. (conflicts_in-nil (sort_by_key rs)).1 ((IsFreeInOrder-sort rs).1 ((IsFree-iff rs).1 h)),
  )
