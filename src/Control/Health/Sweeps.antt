-- ===== src/Control/Health/Sweeps.antt =====
-- A sweep of many backends against the observations of each of them.
use barycenter.Prelude.{
  ℕ, ◌≡◌, refl, true, false, Option, none, List, [], ◌∷◌, ◌==◌, arith, if◌then◌else◌, Assoc, nat_eq,
  lookup, lookup-insert, Bool-cases, inl, inr, ==_iff, sym, Option-cases, ap, ◌∙◌, ◌⊎◌,
}
use barycenter.Control.Health.{HealthRow, ProbeResult, Thresholds, observe, write_row, sweep}

-- The results for one backend.
unfoldable pub results_of : ℕ → List ProbeResult → List ProbeResult
results_of key [] = []
results_of key (r ∷ rs) = if r.key == key then r ∷ results_of key rs else results_of key rs

-- One backend's row after its results, the oldest first.
unfoldable pub observe_all : Thresholds → Option HealthRow → List ProbeResult → Option HealthRow
observe_all th row [] = row
observe_all th row (r ∷ rs) = observe_all th (observe th row r).0 rs

observe-none :
    (th : Thresholds) (row : Option HealthRow) (r : ProbeResult)
    → (observe th row r).0 ≡ none
    → row ≡ none
unfolding observe
observe-none th row r e = ground arith

lookup-write_row :
    (th : Thresholds) (rows : Assoc ℕ HealthRow) (r : ProbeResult) (key : ℕ)
    → let new = (observe th (lookup r.key rows) r).0 in
      lookup key (write_row r.key new rows) ≡ (if r.key == key then new else lookup key rows)
lookup-write_row th rows r key = elim (Option-cases (observe th (lookup r.key rows) r).0) [
  | inl old ↦ let absent = observe-none th (lookup r.key rows) r old in rw old (if_same absent)
  | inr (row, new) ↦ rw new (lookup-insert r.key key row rows)
]
  where
    if_same :
        lookup r.key rows ≡ none
        → lookup key rows ≡ (if r.key == key then none else lookup key rows)
    if_same absent = elim (Bool-cases (r.key == key)) [
      | inl same ↦ rw same (sym (ap (λ k. lookup k rows) ((==_iff r.key key).0 same)) ∙ absent)
      | inr other ↦ rw other refl
    ]

-- A sweep does to each backend's row what its own results do to it, in their order, and nothing
-- else: other backends' results leave it alone.
pub lookup-sweep :
    (th : Thresholds) (rows : Assoc ℕ HealthRow) (rs : List ProbeResult) (key : ℕ)
    → lookup key (sweep th rows rs).0 ≡ observe_all th (lookup key rows) (results_of key rs)
unfolding sweep results_of observe_all
lookup-sweep th rows [] key = refl
lookup-sweep th rows (r ∷ rs) key =
    let new = (observe th (lookup r.key rows) r).0 in
    lookup-sweep th (write_row r.key new rows) rs key
    ∙ rw (lookup-write_row th rows r key) (by_key (Bool-cases (r.key == key)))
  where
    by_key :
        ((r.key == key) ≡ true) ⊎ ((r.key == key) ≡ false)
        → observe_all th
            (if r.key == key then (observe th (lookup r.key rows) r).0 else lookup key rows)
            (results_of key rs)
          ≡ observe_all th
              (lookup key rows)
              (if r.key == key then r ∷ results_of key rs else results_of key rs)
    by_key (inl same) = rw same (
        ap (λ k. observe_all th (observe th (lookup k rows) r).0 (results_of key rs))
          ((==_iff r.key key).0 same))
    by_key (inr other) = rw other refl
