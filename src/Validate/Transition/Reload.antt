-- ===== src/Validate/Transition/Reload.antt =====
-- src/validate/bind-transition.ts, `bindTransitionConflicts` against what a reload does.
use mathlib.Core.Path.{subst}
use barycenter.Prelude.{
  ◌≡◌, ◌↔◌, ◌⊎◌, refl, sym, ◌∙◌, inl, inr, arith, Bool, true, false, Option, List, [], ◌∷◌, ◌++◌,
  Bool-cases,
}
use barycenter.Prelude.Lists.{any, IsIn, IsAll, IsAll-of, IsAll-IsIn, any_iff}
use barycenter.Prelude.Sorting.{IsOrdered}
use barycenter.Prelude.Text.{Text}
use barycenter.Validate.Contention.{text_eq_iff}
use barycenter.Validate.Transition.{
  Listener, Bound, version_eq_iff, same_socket, blocks, BindTransitionConflict, blockers_of,
  conflict_with, conflicts_of, bound_tcp_sockets, bind_transition_conflicts,
}
use barycenter.Validate.Transition.Groups.{Clash, IsApart, IsApart-comm}
use barycenter.Validate.Transition.Together.{bound_tcp_sockets-IsApart}

abbrev pub Same : Bound → Bound → Type 0
Same o n = (o.family ≡ n.family) × (o.addr ≡ n.addr) × (o.port ≡ n.port)

-- The engine goes through its new sockets while the old ones are open: it inherits one that is open,
-- and can bind another if it clashes with none that is open, which it is itself from then on.
pub data Reloads : List Bound → List Bound → Type 0 where
  all_bound : (open_ones : List Bound) → Reloads open_ones []
  inherits :
      (open_ones : List Bound) (o n : Bound) (ns : List Bound)
      → IsIn o open_ones
      → Same o n
      → Reloads open_ones ns
      → Reloads open_ones (n ∷ ns)
  binds :
      (open_ones : List Bound) (n : Bound) (ns : List Bound)
      → IsAll (IsApart n) open_ones
      → Reloads (n ∷ open_ones) ns
      → Reloads open_ones (n ∷ ns)

same_socket_iff : (o n : Bound) → (same_socket o n ≡ true) ↔ Same o n
same_socket_iff o n = ground (arith, version_eq_iff o.family n.family, text_eq_iff o.addr n.addr)

-- A new socket is inherited, or apart from all that are open.
abbrev IsFree : List Bound → Bound → Type 0
IsFree open_ones n = ((o : Bound) × IsIn o open_ones × Same o n) ⊎ IsAll (IsApart n) open_ones

blockers_of-nil :
    (n : Bound) (open_ones : List Bound)
    → (blockers_of n open_ones ≡ []) ↔ IsAll (λ o. blocks n o ≡ false) open_ones
unfolding blockers_of
blockers_of-nil n [] = (λ e. tt, λ h. refl)
blockers_of-nil n (o ∷ open_ones) = elim (Bool-cases (blocks n o)) [
  | inl blocked ↦ (
    λ e.
        let here : blockers_of n (o ∷ open_ones) ≡ o ∷ blockers_of n open_ones = rw blocked refl in
        absurd (cons_nil o (blockers_of n open_ones) (sym here ∙ e)),
    λ h. absurd (contra (sym blocked ∙ h.0)),
  )
  | inr free ↦
      rw free
        (λ e. (refl, (blockers_of-nil n open_ones).0 e), λ h. (blockers_of-nil n open_ones).1 h.1)
]
  where
    contra : true ≡ false → ⊥
    contra e = cc

    cons_nil : (x : Bound) (xs : List Bound) → x ∷ xs ≡ [] → ⊥
    cons_nil x xs e = ground arith

-- One that is not open by name clashes with what blocks it.
blocks_iff : (n o : Bound) → same_socket o n ≡ false → (blocks n o ≡ false) ↔ IsApart n o
blocks_iff n o new = (
  λ e (f, p, why). elim why [
    | inl a ↦ contra (sym ((same_socket_iff o n).1 (sym f, sym a, sym p)) ∙ new)
    | inr w ↦ contra (sym (blocked f p w) ∙ e)
  ],
  λ h. elim (Bool-cases (blocks n o)) [ inl b ↦ absurd (h (parts b)) | inr e ↦ e ],
)
  where
    contra : true ≡ false → ⊥
    contra e = cc

    blocked :
        n.family ≡ o.family
        → n.port ≡ o.port
        → (n.wildcard ≡ true) ⊎ (o.wildcard ≡ true)
        → blocks n o ≡ true
    blocked f p w = ground (arith, version_eq_iff o.family n.family)

    parts : blocks n o ≡ true → Clash n o
    parts b = (ground (arith, version_eq_iff o.family n.family), ground arith, inr (ground arith))

none_open :
    (n : Bound) (open_ones : List Bound) (o : Bound)
    → any (λ o. same_socket o n) open_ones ≡ false
    → IsIn o open_ones
    → same_socket o n ≡ false
none_open n open_ones o new m = elim (Bool-cases (same_socket o n)) [
  | inl same ↦
      absurd (contra (sym ((any_iff (λ o. same_socket o n) open_ones).1 (o, m, same)) ∙ new))
  | inr other ↦ other
]
  where
    contra : true ≡ false → ⊥
    contra e = cc

conflict_with-nil : (n : Bound) (bs : List Bound) → (conflict_with n bs ≡ []) ↔ (bs ≡ [])
conflict_with-nil n [] = (λ e. refl, λ e. refl)
conflict_with-nil n (b ∷ bs) = (λ e. absurd (ground arith), λ e. absurd (ground arith))

append-nil : (xs ys : List BindTransitionConflict) → (xs ++ ys ≡ []) ↔ ((xs ≡ []) × (ys ≡ []))
append-nil [] ys = (λ e. (refl, e), λ h. h.1)
append-nil (x ∷ xs) ys = (λ e. absurd (ground arith), λ h. absurd (ground (arith, h.0)))

conflicts_of-nil :
    (open_ones ns : List Bound) → (conflicts_of open_ones ns ≡ []) ↔ IsAll (IsFree open_ones) ns
unfolding conflicts_of
conflicts_of-nil open_ones [] = (λ e. tt, λ h. refl)
conflicts_of-nil open_ones (n ∷ ns) = elim (Bool-cases (any (λ o. same_socket o n) open_ones)) [
  | inl known ↦
      let (o, m, same) = (any_iff (λ o. same_socket o n) open_ones).0 known in
      rw known (
        λ e. (inl (o, m, (same_socket_iff o n).0 same), (conflicts_of-nil open_ones ns).0 e),
        λ h. (conflicts_of-nil open_ones ns).1 h.1,
      )
  | inr new ↦
      let both =
        append-nil (conflict_with n (blockers_of n open_ones)) (conflicts_of open_ones ns) in
      let mine = conflict_with-nil n (blockers_of n open_ones) in
      let free = blockers_of-nil n open_ones in
      rw new (
        λ e.
            let (here, later) = both.0 e in
            let unblocked = free.0 (mine.0 here) in
            (
              inr (
                  IsAll-of (IsApart n) open_ones (λ o m.
                    (blocks_iff n o (none_open n open_ones o new m)).0
                      (IsAll-IsIn (λ o. blocks n o ≡ false) o open_ones unblocked m))),
              (conflicts_of-nil open_ones ns).0 later,
            ),
        λ h. both.1 (mine.1 (free.1 (unblocked_by new h.0)), (conflicts_of-nil open_ones ns).1 h.1),
      )
]
  where
    contra : true ≡ false → ⊥
    contra e = cc

    unblocked_by :
        any (λ o. same_socket o n) open_ones ≡ false
        → IsFree open_ones n
        → IsAll (λ o. blocks n o ≡ false) open_ones
    unblocked_by new (inl (o, m, same)) =
        absurd (contra (sym ((same_socket_iff o n).1 same) ∙ none_open n open_ones o new m))
    unblocked_by new (inr apart) =
        IsAll-of (λ o. blocks n o ≡ false) open_ones
          (λ o m.
            (blocks_iff n o (none_open n open_ones o new m)).1
              (IsAll-IsIn (IsApart n) o open_ones apart m))

-- What is open after some of the new sockets: the old ones, and some apart from those to come.
record Opened (before now ns : List Bound) : Type 0 where
  pub keeps : (o : Bound) → IsIn o before → IsIn o now
  pub only : (o : Bound) → IsIn o now → IsIn o before ⊎ IsAll (IsApart o) ns

Opened-inherits :
    (before now : List Bound) (n : Bound) (ns : List Bound)
    → Opened before now (n ∷ ns)
    → Opened before now ns
Opened-inherits before now n ns h = record {
  keeps = h.keeps;
  only = λ o m. elim (h.only o m) [ inl old ↦ inl old | inr apart ↦ inr apart.1 ];
}

Opened-binds :
    (before now : List Bound) (n : Bound) (ns : List Bound)
    → IsAll (IsApart n) ns
    → Opened before now (n ∷ ns)
    → Opened before (n ∷ now) ns
Opened-binds before now n ns free h = record {
  keeps = λ o m. inr (h.keeps o m);
  only = λ o m. elim m [
    | inl e ↦ inr (subst (λ x. IsAll (IsApart x) ns) e free)
    | inr there ↦ elim (h.only o there) [ inl old ↦ inl old | inr apart ↦ inr apart.1 ]
  ];
}

IsFree-Reloads :
    (before now ns : List Bound)
    → IsOrdered IsApart ns
    → Opened before now ns
    → IsAll (IsFree before) ns
    → Reloads now ns
IsFree-Reloads before now [] apart h free = all_bound now
IsFree-Reloads before now (n ∷ ns) apart h (inl (o, m, same), free) =
    inherits now o n ns (h.keeps o m) same
      (IsFree-Reloads before now ns apart.1 (Opened-inherits before now n ns h) free)
IsFree-Reloads before now (n ∷ ns) apart h (inr alone, free) =
    binds now n ns
      (IsAll-of (IsApart n) now (λ o m. elim (h.only o m) [
        | inl old ↦ IsAll-IsIn (IsApart n) o before alone old
        | inr later ↦ IsApart-comm o n later.0
      ]))
      (IsFree-Reloads before (n ∷ now) ns apart.1 (Opened-binds before now n ns apart.0 h) free)

Reloads-IsFree :
    (before now ns : List Bound)
    → Reloads now ns
    → IsOrdered IsApart ns
    → Opened before now ns
    → IsAll (IsFree before) ns
Reloads-IsFree before _ _ (all_bound now) apart h = tt
Reloads-IsFree before _ _ (inherits now o n ns m same rest) apart h = (
  elim (h.only o m) [
    | inl old ↦ inl (o, old, same)
    | inr later ↦ absurd (later.0 (same.0, same.2, inl same.1))
  ],
  Reloads-IsFree before now ns rest apart.1 (Opened-inherits before now n ns h),
)
Reloads-IsFree before _ _ (binds now n ns alone rest) apart h = (
  inr (IsAll-of (IsApart n) before (λ o m. IsAll-IsIn (IsApart n) o now alone (h.keeps o m))),
  Reloads-IsFree before (n ∷ now) ns rest apart.1 (Opened-binds before now n ns apart.0 h),
)

-- `bindTransitionConflicts` finds nothing exactly if a reload from the old listeners to the new ones
-- can bind, one after another, each new socket that it does not inherit by family, address and port.
pub bind_transition_conflicts-nil :
    (canonical : Text → Option Text) (locale_less : Text → Text → Bool)
    (before after : List Listener)
    → (bind_transition_conflicts canonical locale_less before after ≡ [])
      ↔ Reloads
          (bound_tcp_sockets canonical locale_less before)
          (bound_tcp_sockets canonical locale_less after)
unfolding bind_transition_conflicts
bind_transition_conflicts-nil canonical locale_less before after =
    let old = bound_tcp_sockets canonical locale_less before in
    let new = bound_tcp_sockets canonical locale_less after in
    let apart = bound_tcp_sockets-IsApart canonical locale_less after in
    let begun : Opened old old new = record { keeps = λ o m. m; only = λ o m. inl m } in
    (
      λ e. IsFree-Reloads old old new apart begun ((conflicts_of-nil old new).0 e),
      λ r. (conflicts_of-nil old new).1 (Reloads-IsFree old old new r apart begun),
    )
