-- ===== src/Dp/SecretGc.antt =====
-- src/dp/secret-gc.ts, `partitionForSweep`: which versions of secrets a sweep keeps. References,
-- names and schemes are compared for equality only; times are in milliseconds. A key of the source's
-- map, `scheme:name`, is the pair, since no scheme has a colon.
pub mod Groups
pub mod Newest
pub mod Kept
pub mod Tests
use barycenter.Prelude.{
  ℕ, zero, suc, ◌≡◌, ◌↔◌, arith, Bool, true, false, not, ◌&&◌, ◌||◌, Option, none, some, List, [],
  ◌∷◌, ◌++◌, ltb, ◌==◌, ◌-◌, ◌+◌, if◌then◌else◌, Eq, Assoc, lookup, insert,
}
use barycenter.Dp.Operation.{Name}

pub record SweepEntry : Type 0 where
  pub ref : Name
  pub name : Name
  pub scheme : Name
  pub mtime : ℕ

pub record Group : Type 0 where
  pub scheme : Name
  pub name : Name

abbrev pub group_eq : Group → Group → Bool
group_eq a b = (a.scheme == b.scheme) && (a.name == b.name)

pub group_eq_iff : (a b : Group) → (group_eq a b ≡ true) ↔ (a ≡ b)
group_eq_iff a b = ground arith

instance abbrev pub group_keys : Eq Group
group_keys = record { beq = group_eq; beq_iff = group_eq_iff }

abbrev pub group_of : SweepEntry → Group
group_of e = record { scheme = e.scheme; name = e.name }

abbrev pub default_keep_per_name : ℕ
default_keep_per_name = 2

abbrev pub default_min_age : ℕ
default_min_age = 3600000

abbrev pub or_empty : Option (List SweepEntry) → List SweepEntry
or_empty none = []
or_empty (some entries) = entries

unfoldable pub by_name :
    List SweepEntry → Assoc Group (List SweepEntry) → Assoc Group (List SweepEntry)
by_name [] m = m
by_name (e ∷ es) m =
    by_name es (insert (group_of e) (or_empty (lookup (group_of e) m) ++ (e ∷ [])) m)

-- `sort`, the newest first; it is stable.
unfoldable pub insert_entry : SweepEntry → List SweepEntry → List SweepEntry
insert_entry e [] = e ∷ []
insert_entry e (x ∷ xs) = if ltb e.mtime x.mtime then x ∷ insert_entry e xs else e ∷ x ∷ xs

unfoldable pub newest_first : List SweepEntry → List SweepEntry
newest_first [] = []
newest_first (e ∷ es) = insert_entry e (newest_first es)

unfoldable pub first_of : ℕ → List SweepEntry → List SweepEntry
first_of zero xs = []
first_of (suc n) [] = []
first_of (suc n) (x ∷ xs) = x ∷ first_of n xs

abbrev pub has_ref : Name → List SweepEntry → Bool
has_ref r [] = false
has_ref r (x ∷ xs) = (x.ref == r) || has_ref r xs

abbrev pub has_root : Name → List Name → Bool
has_root r [] = false
has_root r (x ∷ xs) = (x == r) || has_root r xs

-- The newest versions of every name.
unfoldable pub protected_by_age : ℕ → Assoc Group (List SweepEntry) → List SweepEntry
protected_by_age n [] = []
protected_by_age n ((g, entries) ∷ m) = first_of n (newest_first entries) ++ protected_by_age n m

-- Whether `now - mtime < minAge`, where a time to come is younger than any age but 0.
abbrev pub is_young : ℕ → ℕ → SweepEntry → Bool
is_young age now e = ltb now (e.mtime + age)

unfoldable pub is_kept : List Name → ℕ → ℕ → ℕ → List SweepEntry → SweepEntry → Bool
is_kept roots n age now all e =
    has_root e.ref roots
    || has_ref e.ref (protected_by_age n (by_name all []))
    || is_young age now e

abbrev pub select : (SweepEntry → Bool) → List SweepEntry → List SweepEntry
select p [] = []
select p (x ∷ xs) = let rest = select p xs in if p x then x ∷ rest else rest

pub record Partition : Type 0 where
  pub keep : List SweepEntry
  pub sweep : List SweepEntry

unfoldable pub partition_for_sweep : List SweepEntry → List Name → ℕ → ℕ → ℕ → Partition
partition_for_sweep all roots n age now = record {
  keep = select (is_kept roots n age now all) all;
  sweep = select (λ e. not (is_kept roots n age now all e)) all;
}
