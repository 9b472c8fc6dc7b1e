-- ===== src/Dp/Agent/Linear.antt =====
-- The compare-and-set loop of `serial`: no update is lost, and few interferences do not fail it.
use barycenter.Prelude.{ℕ, ◌≡◌, ◌≢◌, ◌≤◌, refl, List, [], ◌∷◌, ◌+◌, ◌-◌, arith, ◌⊎◌, inl, inr}
use barycenter.Dp.Agent.State.{Result, AgentState}
use barycenter.Dp.Agent.Journal.{length}
use barycenter.Dp.Agent.Serial.{Store, Failure, conflict, Outcome, saved, refused, prepare, serial}

-- A store is the first that was read, or one that a save has met.
pub data IsAmong (s : Store) : List Store → Type 0 where
  here : {ss : List Store} → IsAmong s (s ∷ ss)
  later : {t : Store} {ss : List Store} → IsAmong s ss → IsAmong s (t ∷ ss)

module _ {A : Type 0} (mutate : AgentState → Result (AgentState × A)) where
  -- What is saved was made from one store, and replaces one of the same version.
  pub record IsSavedFrom (stores : List Store) (next : Store) (a : A) : Type 0 where
    pub from : Store
    pub met : Store
    pub from_known : IsAmong from stores
    pub met_known : IsAmong met stores
    pub made : prepare mutate from ≡ saved next a
    pub same_version : met.version ≡ from.version

  prepare-version :
      (read : Store) {next : Store} {a : A}
      → prepare mutate read ≡ saved next a
      → next.version ≡ read.version + 1
  unfolding prepare
  prepare-version read e = ground arith

  prepare-conflict : (read : Store) → prepare mutate read ≢ refused conflict
  unfolding prepare
  prepare-conflict read e = ground arith

  Outcome-cases :
      (o : Outcome A)
      → ((f : Failure) × (o ≡ refused f)) ⊎ ((next : Store) × (a : A) × (o ≡ saved next a))
  Outcome-cases (refused f) = inl (f, refl)
  Outcome-cases (saved next a) = inr (next, a, refl)

  serial_success :
      (limit : ℕ) (read met : Store) (mets : List Store) {next : Store} {a : A}
      → serial mutate limit read (met ∷ mets) ≡ saved next a
      → ((prepare mutate read ≡ saved next a) × (next.version ≡ met.version + 1))
        ⊎ (serial mutate (limit - 1) met mets ≡ saved next a)
  unfolding serial
  serial_success limit read met mets e = elim (Outcome-cases (prepare mutate read)) [
    | inl (f, bad) ↦ absurd (ground arith)
    | inr (next, a, good) ↦ ground arith
  ]

  serial_conflict :
      (limit : ℕ) (read met : Store) (mets : List Store)
      → serial mutate limit read (met ∷ mets) ≡ refused conflict
      → (limit ≡ 0) ⊎ (serial mutate (limit - 1) met mets ≡ refused conflict)
  unfolding serial
  serial_conflict limit read met mets e = elim (Outcome-cases (prepare mutate read)) [
    | inl (f, bad) ↦ absurd (ground (arith, prepare-conflict read))
    | inr (next, a, good) ↦ ground arith
  ]

  -- If `serial` succeeds, whatever other writers have saved in between, then what it has saved is
  -- what its body makes of one of the stores that it has read, and the save replaced a store of the
  -- same version as that one.
  pub serial-IsSavedFrom :
      (limit : ℕ) (read : Store) (mets : List Store) {next : Store} {a : A}
      → serial mutate limit read mets ≡ saved next a
      → IsSavedFrom (read ∷ mets) next a
  unfolding serial
  serial-IsSavedFrom limit read [] e = record {
    from = read;
    met = read;
    from_known = here;
    met_known = here;
    made = e;
    same_version = refl;
  }
  serial-IsSavedFrom limit read (met ∷ mets) e = elim (serial_success limit read met mets e) [
    | inl (made, version) ↦ record {
      from = read;
      met = met;
      from_known = here;
      met_known = later here;
      made = made;
      same_version = ground (arith, prepare-version read made);
    }
    | inr again ↦
        let h = serial-IsSavedFrom (limit - 1) met mets again in
        record {
          from = h.from;
          met = h.met;
          from_known = later h.from_known;
          met_known = later h.met_known;
          made = h.made;
          same_version = h.same_version;
        }
  ]

  -- As long as at most as many other saves come in between as there are retries, the operation
  -- does not fail for a conflict.
  pub serial-conflict :
      (limit : ℕ) (read : Store) (mets : List Store)
      → length mets ≤ limit
      → serial mutate limit read mets ≢ refused conflict
  unfolding serial
  serial-conflict limit read [] few e = prepare-conflict read e
  serial-conflict limit read (met ∷ mets) few e = elim (serial_conflict limit read met mets e) [
    | inl none_left ↦ ground arith
    | inr again ↦ serial-conflict (limit - 1) met mets (omega arith) again
  ]
