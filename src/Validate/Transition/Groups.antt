-- ===== src/Validate/Transition/Groups.antt =====
-- src/validate/bind-transition.ts, the groups that `boundTcpSockets` makes, one for each family and port.
use mathlib.Core.Path.{subst}
use barycenter.Prelude.{
  ap, ℕ, ◌≡◌, ◌≢◌, ◌⊎◌, refl, sym, ◌∙◌, inl, inr, true, false, Option, none, some, List, [], ◌∷◌,
  Bool-cases, lookup, insert,
}
use barycenter.Prelude.Lists.{any, IsAll, IsAll-append, IsAll-weaken, any_iff}
use barycenter.Prelude.Sorting.{IsOrdered-append, IsOrdered}
use barycenter.Prelude.Text.{text_eq}
use barycenter.Validate.Contention.{text_eq_iff}
use barycenter.Validate.Sockets.{BindAddress}
use barycenter.Validate.Transition.{
  Bound, GroupKey, group_of_port, Groups, bound_of, or_none, add_once, add_address,
}

-- Two sockets of one family and port, with one address or one of them for all addresses: Linux does
-- not bind one while the other is open.
abbrev pub Clash : Bound → Bound → Type 0
Clash a b =
    (a.family ≡ b.family)
    × (a.port ≡ b.port)
    × ((a.addr ≡ b.addr) ⊎ ((a.wildcard ≡ true) ⊎ (b.wildcard ≡ true)))

abbrev pub IsApart : Bound → Bound → Type 0
IsApart a b = Clash a b → ⊥

pub IsApart-comm : (a b : Bound) → IsApart a b → IsApart b a
IsApart-comm a b h (f, p, inl e) = h (sym f, sym p, inl (sym e))
IsApart-comm a b h (f, p, inr (inl w)) = h (sym f, sym p, inr (inr w))
IsApart-comm a b h (f, p, inr (inr w)) = h (sym f, sym p, inr (inl w))

abbrev pub BelongsTo : GroupKey → Bound → Type 0
BelongsTo k b = (b.family ≡ k.0) × (b.port ≡ k.1)

abbrev pub Differ : Bound → Bound → Type 0
Differ a b = a.addr ≢ b.addr

-- A group's sockets are its key's, with different addresses.
abbrev pub IsGroup : GroupKey × List Bound → Type 0
IsGroup g = IsAll (BelongsTo g.0) g.1 × IsOrdered Differ g.1

abbrev pub KeysDiffer : GroupKey × List Bound → GroupKey × List Bound → Type 0
KeysDiffer g h = g.0 ≢ h.0

abbrev pub IsGrouped : Groups → Type 0
IsGrouped groups = IsAll IsGroup groups × IsOrdered KeysDiffer groups

lookup-IsGroup :
    (k : GroupKey) (groups : Groups) → IsAll IsGroup groups → IsGroup (k, or_none (lookup k groups))
unfolding lookup
lookup-IsGroup k [] h = (tt, tt)
lookup-IsGroup k ((j, list) ∷ groups) h = elim (Bool-cases (group_of_port.beq j k)) [
  | inl same ↦ rw same (subst (λ x. IsGroup (x, list)) ((group_of_port.beq_iff j k).0 same) h.0)
  | inr other ↦ rw other (lookup-IsGroup k groups h.1)
]

insert-IsAll :
    (P : GroupKey × List Bound → Type 0) (k : GroupKey) (new : List Bound) (groups : Groups)
    → P (k, new)
    → IsAll P groups
    → IsAll P (insert k new groups)
unfolding insert
insert-IsAll P k new [] h all = (h, tt)
insert-IsAll P k new ((j, list) ∷ groups) h all = elim (Bool-cases (group_of_port.beq j k)) [
  | inl same ↦ rw same (h, all.1)
  | inr other ↦ rw other (all.0, insert-IsAll P k new groups h all.1)
]

insert-KeysDiffer :
    (k : GroupKey) (new : List Bound) (groups : Groups)
    → IsOrdered KeysDiffer groups
    → IsOrdered KeysDiffer (insert k new groups)
unfolding insert
insert-KeysDiffer k new [] h = (tt, tt)
insert-KeysDiffer k new ((j, list) ∷ groups) h = elim (Bool-cases (group_of_port.beq j k)) [
  | inl same ↦
      let e = (group_of_port.beq_iff j k).0 same in
      rw same (
        IsAll-weaken (KeysDiffer (j, list)) (KeysDiffer (k, new)) groups (λ g d f. d (e ∙ f)) h.0,
        h.1,
      )
  | inr other ↦ rw other (
    insert-IsAll (KeysDiffer (j, list)) k new groups
        (λ e. contra (sym ((group_of_port.beq_iff j k).1 e) ∙ other)) h.0,
    insert-KeysDiffer k new groups h.1,
  )
]
  where
    contra : true ≡ false → ⊥
    contra e = cc

add_once-IsGroup :
    (k : GroupKey) (b : Bound) (list : List Bound)
    → BelongsTo k b
    → IsGroup (k, list)
    → IsGroup (k, add_once b list)
add_once-IsGroup k b list own h = elim (Bool-cases (any (λ x. text_eq x.addr b.addr) list)) [
  | inl known ↦ rw known h
  | inr new ↦ rw new (
    IsAll-append (BelongsTo k) list (b ∷ []) h.0 (own, tt),
    IsOrdered-append Differ list (b ∷ []) h.1 (tt, tt)
        (λ x m y k. elim k [
          | inl e ↦ λ q.
              let same = q ∙ sym (ap (λ (z : Bound). z.addr) e) in
              contra (
                sym (
                  (any_iff (λ x. text_eq x.addr b.addr) list).1
                    (x, m, (text_eq_iff x.addr b.addr).1 same))
                ∙ new)
          | inr nothing ↦ absurd nothing
        ]),
  )
]
  where
    contra : true ≡ false → ⊥
    contra e = cc

pub add_address-IsGrouped :
    (port : ℕ) (a : Option BindAddress) (groups : Groups)
    → IsGrouped groups
    → IsGrouped (add_address port a groups)
add_address-IsGrouped port none groups h = h
add_address-IsGrouped port (some a) groups h =
    let b = bound_of a port in
    let k : GroupKey = (b.family, b.port) in
    let list = add_once b (or_none (lookup k groups)) in
    let good =
      add_once-IsGroup k b (or_none (lookup k groups)) (refl, refl) (lookup-IsGroup k groups h.0) in
    (insert-IsAll IsGroup k list groups good h.0, insert-KeysDiffer k list groups h.1)
