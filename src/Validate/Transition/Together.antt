-- ===== src/Validate/Transition/Together.antt =====
-- src/validate/bind-transition.ts, `boundTcpSockets`: whether its sockets can be open together.
use mathlib.Core.Path.{subst}
use barycenter.Prelude.{
  ◌≡◌, refl, sym, ◌∙◌, inl, inr, arith, Bool, true, false, not, ◌||◌, Option, none, some, List, [],
  ◌∷◌, if◌then◌else◌, Bool-cases, Option-cases,
}
use barycenter.Prelude.Lists.{IsAll-IsIn, IsAll, IsAll-append, IsAll-weaken}
use barycenter.Prelude.Sorting.{IsOrdered-append, IsOrdered, sort_by-IsApart}
use barycenter.Prelude.Text.{Text}
use barycenter.Validate.Sockets.{transport_of, normalize_bind}
use barycenter.Validate.Transition.{
  Listener, Bound, GroupKey, group_of_port, Groups, add_address, first_wildcard, wildcard_or_all,
  sockets_of_groups, grouped, socket_first, with_redirect_listeners, bound_tcp_sockets, is_tcp,
}
use barycenter.Validate.Transition.Groups.{
  IsApart, IsApart-comm, BelongsTo, Differ, IsGroup, KeysDiffer, IsGrouped, add_address-IsGrouped,
}

abbrev IsPlain : Bound → Type 0
IsPlain b = b.wildcard ≡ false

first_wildcard-none : (list : List Bound) → first_wildcard list ≡ none → IsAll IsPlain list
first_wildcard-none [] e = tt
first_wildcard-none (b ∷ bs) e = elim (Bool-cases b.wildcard) [
  | inl wild ↦
      let here : first_wildcard (b ∷ bs) ≡ some b = rw wild refl in
      absurd (some_none b (sym here ∙ e))
  | inr plain ↦
      let here : first_wildcard (b ∷ bs) ≡ first_wildcard bs = rw plain refl in
      (plain, first_wildcard-none bs (sym here ∙ e))
]
  where
    some_none : (b : Bound) → some b ≡ none → ⊥
    some_none b e = ground arith

first_wildcard-some :
    (P : Bound → Type 0) (list : List Bound) (w : Bound)
    → IsAll P list
    → first_wildcard list ≡ some w
    → P w
first_wildcard-some P [] w h e = absurd (ground arith)
first_wildcard-some P (b ∷ bs) w h e = elim (Bool-cases b.wildcard) [
  | inl wild ↦
      let here : first_wildcard (b ∷ bs) ≡ some b = rw wild refl in
      subst P (injective b w (sym here ∙ e)) h.0
  | inr plain ↦
      let here : first_wildcard (b ∷ bs) ≡ first_wildcard bs = rw plain refl in
      first_wildcard-some P bs w h.1 (sym here ∙ e)
]
  where
    injective : (a b : Bound) → some a ≡ some b → a ≡ b
    injective a b e = ground arith

plain-IsApart :
    (list : List Bound) → IsAll IsPlain list → IsOrdered Differ list → IsOrdered IsApart list
plain-IsApart [] h k = tt
plain-IsApart (b ∷ bs) h k = (others bs h.1 k.0, plain-IsApart bs h.1 k.1)
  where
    contra : true ≡ false → ⊥
    contra e = cc

    others : (cs : List Bound) → IsAll IsPlain cs → IsAll (Differ b) cs → IsAll (IsApart b) cs
    others [] p d = tt
    others (c ∷ cs) p d = (
      λ (f, q, why). elim why [
        | inl e ↦ d.0 e
        | inr (inl w) ↦ contra (sym w ∙ h.0)
        | inr (inr w) ↦ contra (sym w ∙ p.0)
      ],
      others cs p.1 d.1,
    )

-- What a group opens is apart, and the group's.
wildcard_or_all-IsApart :
    (k : GroupKey) (list : List Bound)
    → IsGroup (k, list)
    → IsAll (BelongsTo k) (wildcard_or_all list (first_wildcard list))
      × IsOrdered IsApart (wildcard_or_all list (first_wildcard list))
wildcard_or_all-IsApart k list h = elim (Option-cases (first_wildcard list)) [
  | inl plain ↦ rw plain (h.0, plain-IsApart list (first_wildcard-none list plain) h.1)
  | inr (w, wild) ↦ rw wild ((first_wildcard-some (BelongsTo k) list w h.0 wild, tt), (tt, tt))
]

abbrev IsForeign : GroupKey → Bound → Type 0
IsForeign k b = BelongsTo k b → ⊥

sockets_of_groups-IsForeign :
    (k : GroupKey) (list : List Bound) (groups : Groups)
    → IsAll (KeysDiffer (k, list)) groups
    → IsAll IsGroup groups
    → IsAll (IsForeign k) (sockets_of_groups groups)
unfolding sockets_of_groups
sockets_of_groups-IsForeign k list [] d h = tt
sockets_of_groups-IsForeign k list ((j, bs) ∷ groups) d h =
    IsAll-append (IsForeign k) (wildcard_or_all bs (first_wildcard bs)) (sockets_of_groups groups)
      (IsAll-weaken (BelongsTo j) (IsForeign k) (wildcard_or_all bs (first_wildcard bs))
        (λ b own other. d.0 (same_pair k j (sym other.0 ∙ own.0) (sym other.1 ∙ own.1)))
        (wildcard_or_all-IsApart j bs h.0).0)
      (sockets_of_groups-IsForeign k list groups d.1 h.1)
  where
    same_pair : (j k : GroupKey) → j.0 ≡ k.0 → j.1 ≡ k.1 → j ≡ k
    same_pair (f, p) (g, q) e d = rw (e, d) refl

sockets_of_groups-IsApart :
    (groups : Groups) → IsGrouped groups → IsOrdered IsApart (sockets_of_groups groups)
unfolding sockets_of_groups
sockets_of_groups-IsApart [] h = tt
sockets_of_groups-IsApart ((k, list) ∷ groups) h =
    let (own, apart) = wildcard_or_all-IsApart k list h.0.0 in
    let foreign = sockets_of_groups-IsForeign k list groups h.1.0 h.0.1 in
    IsOrdered-append IsApart (wildcard_or_all list (first_wildcard list)) (sockets_of_groups groups)
      apart (sockets_of_groups-IsApart groups (h.0.1, h.1.1))
      (λ x m y n clash.
        let mine = IsAll-IsIn (BelongsTo k) x (wildcard_or_all list (first_wildcard list)) own m in
        IsAll-IsIn (IsForeign k) y (sockets_of_groups groups) foreign n
          (sym clash.0 ∙ mine.0, sym clash.1 ∙ mine.1))

module _ (canonical : Text → Option Text) (locale_less : Text → Text → Bool) where
  grouped-IsGrouped :
      (ls : List Listener) (groups : Groups)
      → IsGrouped groups
      → IsGrouped (grouped canonical locale_less ls groups)
  unfolding grouped
  grouped-IsGrouped [] groups h = h
  grouped-IsGrouped (l ∷ ls) groups h =
      grouped-IsGrouped ls
        (if not l.enabled || not (is_tcp (transport_of l.protocol))
          then groups
          else add_address l.port (normalize_bind canonical l.bind) groups)
        (either (not l.enabled || not (is_tcp (transport_of l.protocol))))
    where
      either :
          (skip : Bool)
          → IsGrouped
              (if skip then groups else add_address l.port (normalize_bind canonical l.bind) groups)
      either true = h
      either false = add_address-IsGrouped l.port (normalize_bind canonical l.bind) groups h

  -- No two of the sockets that listeners bind clash.
  pub bound_tcp_sockets-IsApart :
      (ls : List Listener) → IsOrdered IsApart (bound_tcp_sockets canonical locale_less ls)
  unfolding bound_tcp_sockets
  bound_tcp_sockets-IsApart ls =
      let groups = grouped canonical locale_less (with_redirect_listeners ls) [] in
      (sort_by-IsApart (socket_first canonical locale_less) IsApart IsApart-comm
          (sockets_of_groups groups)).1
        (sockets_of_groups-IsApart groups
          (grouped-IsGrouped (with_redirect_listeners ls) [] (tt, tt)))
