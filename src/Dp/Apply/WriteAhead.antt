-- ===== src/Dp/Apply/WriteAhead.antt =====
-- What the runner asks of the effects it has written into the agent's state before.
use barycenter.Prelude.{
  ◌≡◌, ◌≤◌, ◌<◌, refl, ap, ◌∙◌, true, none, some, [], ◌∷◌, arith, ◌⊎◌, inl, inr, Option-cases,
  IsAll,
}
use barycenter.Dp.Operation.{ApplyOperation, PublishRecord}
use barycenter.Dp.Agent.State.{ok, JournalEntry, AgentState, journal_conflict}
use barycenter.Dp.Agent.Prune.{prune}
use barycenter.Dp.Agent.Intents.{prune-SameIntents}
use barycenter.Dp.Agent.Checks.{assert_invariants}
use barycenter.Dp.Agent.Rules.{assert_leader}
use barycenter.Dp.Agent.Journal.{write_journal, record_publish_intent}
use barycenter.Dp.Agent.Requests.{Request, journal_write, intent_record, handle}
use barycenter.Dp.Agent.Ensures.{Result-cases}
use barycenter.Dp.Apply.Monad.{
  violation, Effect, Effects, EffectCall, published_call, reload_call, LoggedCall, Runner, Outcome,
  done, thrown, Thrown, rejection, Run, ◌>>=◌, ◌>>◌, pure, throw, and_then, catch_after, try, call,
  logged, meet_others,
}
use barycenter.Dp.Apply.Envelope.{next, record_of}
use barycenter.Dp.Apply.Steps.{push_phase, write}
use barycenter.Dp.Apply.Phases.{announce}
use barycenter.Dp.Apply.Reload.{
  reload_attempt_limit, write_ahead, one_more, signal_step, unless_outrun, reload_once,
}
use barycenter.Dp.Apply.Stable.{Keeps, IsStable, Keeps-budget, Keeps-then, Keeps-bind}
use barycenter.Dp.Apply.Whole.{Keeps-await_activation, Keeps-note_activation}
use barycenter.Dp.Apply.WholeDrive.{Keeps-run_operation, Keeps-recover}
use barycenter.Dp.Apply.Drive.{run_operation, recover}

-- What stands in the agent's state when a call is made: the intent of a publication, the attempt of
-- a reload.
pub IsWrittenDown : EffectCall → AgentState → Type 0
IsWrittenDown (published_call r) s = s.last_publish_intent ≡ some r
IsWrittenDown (reload_call op) s =
    (j : JournalEntry) × (s.journal ≡ some j)
    × (j.op ≡ op)
    × (1 ≤ j.reload_attempts)
    × (j.reload_attempts ≤ reload_attempt_limit)

abbrev pub IsWrittenBefore : LoggedCall → Type 0
IsWrittenBefore c = IsWrittenDown c.what c.seen_by

module _ {W : Type 0} (fx : Effects W) where
  -- A call throws and leaves the log, or the request gives the state that it leaves.
  call-cases :
      (r : Request) (s : Runner W)
      → ((e : Thrown) × ((call fx r s).1 ≡ thrown e) × ((call fx r s).0.calls ≡ s.calls))
        ⊎ ((t : AgentState) × (handle (meet_others fx s).agent r ≡ ok t)
            × (call fx r s ≡ (record (meet_others fx s) { agent = prune t }, done tt)))
  unfolding call meet_others
  call-cases r s = elim (Result-cases (handle (meet_others fx s).agent r)) [
    | inl (e, bad) ↦ inl (rejection e, ground arith, ground arith)
    | inr (t, good) ↦
        elim (Option-cases (assert_invariants (some (meet_others fx s).agent) (prune t))) [
          | inl fine ↦ inr (t, good, ground arith)
          | inr (v, found) ↦ inl (violation v, ground arith, ground arith)
        ]
  ]

  LogsAhead : Runner W → Runner W → Type 0
  LogsAhead s t = IsAll IsWrittenBefore s.calls → IsAll IsWrittenBefore t.calls

  LogsAhead-of_calls : (s t : Runner W) → t.calls ≡ s.calls → LogsAhead s t
  unfolding LogsAhead
  LogsAhead-of_calls s t e h = rw e h

  call-LogsAhead : (r : Request) → Keeps LogsAhead (call fx r)
  unfolding meet_others
  call-LogsAhead r = record {
    kept = λ s.
        LogsAhead-of_calls s _ (elim (call-cases r s) [
          | inl (e, stop, same) ↦ same
          | inr (t, good, left) ↦ rw left refl
        ]);
  }

  LogsAhead-IsStable : IsStable fx LogsAhead
  unfolding LogsAhead meet_others
  LogsAhead-IsStable = record {
    same = λ s h. h;
    follow = λ s t u f g h. g (f h);
    of_world = λ s w h. h;
    of_others = λ s h. h;
    of_call = call-LogsAhead;
    of_history = λ s l h. h;
  }

  and_then-thrown :
      {A B : Type 0} (f : A → Run W B) (r : Runner W × Outcome A) (e : Thrown)
      → r.1 ≡ thrown e
      → (and_then f r).0 ≡ r.0
  and_then-thrown f (s, done a) e h = ground arith
  and_then-thrown f (s, thrown d) e h = refl

  -- A step after a call runs in the state that the call's request gives, or not at all.
  then_after :
      {A : Type 0} (r : Request) (k : Run W A) (s : Runner W)
      → ((t : AgentState)
          → handle (meet_others fx s).agent r ≡ ok t
          → LogsAhead
              (record (meet_others fx s) { agent = prune t })
              (k (record (meet_others fx s) { agent = prune t })).0)
      → LogsAhead s ((call fx r >> k) s).0
  unfolding ◌>>◌ LogsAhead meet_others
  then_after r k s h = elim (call-cases r s) [
    | inl (e, stop, same) ↦
        LogsAhead-of_calls s (and_then (λ _. k) (call fx r s)).0
          (ap (λ u. u.calls) (and_then-thrown (λ _. k) (call fx r s) e stop) ∙ same)
    | inr (t, good, left) ↦ rw left (h t good)
  ]

  record_publish_intent-intent :
      (s t : AgentState) (r : PublishRecord)
      → record_publish_intent s r ≡ ok t
      → t.last_publish_intent ≡ some r
  unfolding record_publish_intent assert_leader
  record_publish_intent-intent s t r e = ground arith

  -- A call that is written down is logged so, and what comes after it has to keep the log.
  logged-LogsAhead :
      {A : Type 0} (c : EffectCall) (effect : W → W × Effect A) (s : Runner W)
      → IsWrittenDown c s.agent
      → LogsAhead s (logged fx c effect s).0
  unfolding logged LogsAhead
  logged-LogsAhead c effect s written h =
      (Keeps-budget LogsAhead-IsStable effect).kept
        (record s { calls = record { what = c; seen_by = s.agent } ∷ s.calls }) (written, h)

  logged_then :
      {A : Type 0} (c : EffectCall) (effect : W → W × Effect (Unit {0})) (k : Run W A)
      (s : Runner W)
      → IsWrittenDown c s.agent
      → Keeps LogsAhead k
      → LogsAhead s ((logged fx c effect >> k) s).0
  unfolding logged LogsAhead ◌>>◌
  logged_then c effect k s written keeps h =
      (Keeps-then LogsAhead-IsStable (Keeps-budget LogsAhead-IsStable effect) keeps).kept
        (record s { calls = record { what = c; seen_by = s.agent } ∷ s.calls }) (written, h)

  announce-LogsAhead : (op : ApplyOperation) → Keeps LogsAhead (announce fx op)
  unfolding announce handle IsWrittenDown
  announce-LogsAhead op = record {
    kept = λ s. then_after (intent_record (record_of op)) _ s (λ t good.
        logged-LogsAhead (published_call (record_of op)) (fx.publish (record_of op)) _
          ((prune-SameIntents t).intent ∙ record_publish_intent-intent _ t (record_of op) good));
  }

  write_journal-journal :
      (s t : AgentState) (j : JournalEntry) → write_journal s j ≡ ok t → t.journal ≡ some j
  unfolding write_journal assert_leader
  write_journal-journal s t j e = ground arith

  -- What a write of the journal leaves: the entry, or nothing if it throws; the log as it was.
  abbrev Written : JournalEntry → Runner W → Runner W × Outcome (Unit {0}) → Type 0
  Written j s (t, done a) = (t.calls ≡ s.calls) × (t.agent.journal ≡ some j)
  Written j s (t, thrown e) = t.calls ≡ s.calls

  Written-of_thrown :
      (j : JournalEntry) (s : Runner W) (r : Runner W × Outcome (Unit {0})) (e : Thrown)
      → r.1 ≡ thrown e
      → r.0.calls ≡ s.calls
      → Written j s r
  Written-of_thrown j s (t, done a) e stop same = absurd (ground arith)
  Written-of_thrown j s (t, thrown d) e stop same = same

  call-Written : (j : JournalEntry) (s : Runner W) → Written j s (call fx (journal_write j) s)
  unfolding handle meet_others
  call-Written j s = elim (call-cases (journal_write j) s) [
    | inl (e, stop, same) ↦ Written-of_thrown j s (call fx (journal_write j) s) e stop same
    | inr (t, good, left) ↦
        rw left (refl, (prune-SameIntents t).journal ∙ write_journal-journal _ t j good)
  ]

  -- The reload of an attempt that stands in the journal.
  signal_step-LogsAhead :
      (j : JournalEntry) (s : Runner W)
      → j.reload_attempts < reload_attempt_limit
      → s.agent.journal ≡ some (next j (one_more fx))
      → LogsAhead s (signal_step fx j.op true s).0
  unfolding signal_step IsWrittenDown
  signal_step-LogsAhead j s few written =
      logged_then (reload_call j.op) fx.signal_reload _ s
        (next j (one_more fx), written, refl, omega arith, omega arith)
        (Keeps-bind LogsAhead-IsStable
          (Keeps-await_activation LogsAhead-IsStable fx.poll_attempts j.op.target_generation none)
          (Keeps-note_activation LogsAhead-IsStable j.op))

  -- A write that throws sends no reload.
  unsent :
      (op : ApplyOperation) (e : Thrown) (s t : Runner W)
      → t.calls ≡ s.calls
      → LogsAhead s (and_then (signal_step fx op) (unless_outrun fx e t)).0
  unfolding signal_step pure throw
  unsent op (rejection journal_conflict) s t same = LogsAhead-of_calls s t same
  unsent op e s t same = LogsAhead-of_calls s t same

  signal_after :
      (j : JournalEntry) (s : Runner W) (r : Runner W × Outcome (Unit {0}))
      → j.reload_attempts < reload_attempt_limit
      → Written (next j (one_more fx)) s r
      → LogsAhead s
          (and_then (signal_step fx j.op) (
            catch_after
              (unless_outrun fx)
              (and_then (λ _. pure true) (and_then (λ _. push_phase fx j.phase) r)))).0
  unfolding push_phase pure LogsAhead
  signal_after j s (t, done a) few (same, written) h =
      signal_step-LogsAhead j (push_phase fx j.phase t).0 few written
        (LogsAhead-of_calls s t same h)
  signal_after j s (t, thrown e) few same h = unsent j.op e s t same h

  reload_once-LogsAhead :
      (j : JournalEntry)
      → j.reload_attempts < reload_attempt_limit
      → Keeps LogsAhead (reload_once fx j)
  unfolding reload_once write_ahead write try ◌>>◌ ◌>>=◌
  reload_once-LogsAhead j few = record {
    kept = λ s. signal_after j s _ few (call-Written (next j (one_more fx)) s);
  }

  IsAll-IsWrittenBefore :
      (s t : Runner W) → s.calls ≡ [] → LogsAhead s t → IsAll IsWrittenBefore t.calls
  unfolding LogsAhead
  IsAll-IsWrittenBefore s t e h = h (rw e tt)

  -- From a runner that has called nothing yet, `run` and `recover` call an effect that changes what
  -- is served only after having written it into the agent's state, and however they end: when
  -- `publish` is called with a record, that record is the last publish intent; when `signalReload`
  -- is called for an operation, the journal is that operation's and counts the attempt, of which
  -- there are at most two, whatever the effects answer and whoever else sends the agent requests.
  pub run_operation-IsWrittenBefore :
      (op : ApplyOperation) (s : Runner W)
      → s.calls ≡ []
      → IsAll IsWrittenBefore (run_operation fx op s).0.calls
        × IsAll IsWrittenBefore (recover fx s).0.calls
  run_operation-IsWrittenBefore op s e = (
    IsAll-IsWrittenBefore s _ e (
        (Keeps-run_operation LogsAhead-IsStable announce-LogsAhead reload_once-LogsAhead op).kept
          s),
    IsAll-IsWrittenBefore s _ e
        ((Keeps-recover LogsAhead-IsStable announce-LogsAhead reload_once-LogsAhead).kept s),
  )
