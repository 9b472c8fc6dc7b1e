-- ===== src/Dp/Agent/ExclusiveTests.antt =====
-- Two operations and two writers of a journal meet, in src/dp/agent.ts.
use barycenter.Prelude.{ℕ, ◌≡◌, refl, none, some, List, [], ◌∷◌, arith, lookup, insert, keys}
use barycenter.Dp.Operation.{http, ApplyOperation, ApplyPhase, planes_of, both}
use barycenter.Dp.Agent.State.{
  Rejection, Result, ok, err, PlaneAck, JournalEntry, AgentState, initial,
}
use barycenter.Dp.Agent.Identity.{tuple_for, tuples_for, owns_journal, terminal_of}
use barycenter.Dp.Agent.Rules.{
  admit, judge, assert_leader, acquire, acquire_new, record_step, set_slot,
}
use barycenter.Dp.Agent.Verbs.{reserve, reserve_admitted}
use barycenter.Dp.Agent.Opening.{
  Opening, reserve_all, reserve_tuples, reserve_clean, clear_stale_journal, reserve_each,
  open_journal,
}
use barycenter.Dp.Agent.Journal.{write_journal, assert_ownership}
use barycenter.Dp.Agent.Prune.{
  prune, prune_evidence, prune_terminal, prune_terminals, prune_completed, erase_all,
}
use barycenter.Dp.Agent.Checks.{assert_invariants}
use barycenter.Dp.Agent.Requests.{Request, reserve_planes, handle, transact, run}
use barycenter.Dp.Agent.Exclusive.{write_journal-write_journal, reserve_all-excludes}

abbrev first_operation : ApplyOperation
first_operation = record {
  leader_token = 2;
  operation_id = 10;
  transition_id = 20;
  affected_planes = http ∷ [];
  planes = record {
    at_http = some (record {
      expected_current = record { activation_epoch = 0; membership_revision = 0 };
      target = record { activation_epoch = 1; membership_revision = 1 };
      payload_digest = 7;
    });
    at_stream = none;
  };
  target_generation = 5;
  generation_digest = 6;
}

abbrev second_operation : ApplyOperation
second_operation = record first_operation { operation_id = 11 }

abbrev first_opening : Opening
first_opening = record {
  op = first_operation;
  phase = ApplyPhase.preflight;
  reload_attempts = 0;
  progress = both none;
}

abbrev entry_of : ApplyOperation → ℕ → JournalEntry
entry_of op seq = record {
  op = op;
  phase = ApplyPhase.preflight;
  reload_attempts = 0;
  seq = seq;
  progress = both none;
  evidence = none;
  failure = none;
}

abbrev after_opening : Result (AgentState × List PlaneAck) → AgentState
after_opening (ok r) = r.0
after_opening (err e) = initial

abbrev opened : AgentState
opened = after_opening (reserve_all initial first_operation (some first_opening))

reserve_all-excludes_example :
    ((e : Rejection) × (reserve_all opened second_operation none ≡ err e))
    × ((e : Rejection) × (write_journal opened (entry_of second_operation 2) ≡ err e))
    × ((e : Rejection) × (assert_ownership opened second_operation ≡ err e))
unfolding initial reserve_all reserve_tuples reserve_clean clear_stale_journal reserve_each
    open_journal planes_of tuple_for tuples_for reserve reserve_admitted admit judge assert_leader
    acquire acquire_new record_step set_slot lookup insert terminal_of owns_journal
reserve_all-excludes_example =
    reserve_all-excludes initial first_operation second_operation (some first_opening) none
      (entry_of second_operation 2) refl refl refl

abbrev history : List Request
history = reserve_planes first_operation (some first_opening) ∷ []

abbrev after_write : Result AgentState → AgentState
after_write (ok s) = s
after_write (err e) = initial

write_journal-write_journal_example :
    (e : Rejection) × (write_journal
        (run (after_write (write_journal (run initial history) (entry_of first_operation 2))) [])
        (entry_of first_operation 2)
      ≡ err e)
unfolding initial reserve_all reserve_tuples reserve_clean clear_stale_journal reserve_each
    open_journal planes_of tuple_for tuples_for reserve reserve_admitted admit judge assert_leader
    acquire acquire_new record_step set_slot lookup insert terminal_of owns_journal write_journal
    run transact handle assert_invariants prune prune_evidence prune_terminal prune_completed
    prune_terminals erase_all keys
write_journal-write_journal_example =
    write_journal-write_journal history [] (entry_of first_operation 2) (entry_of first_operation 2)
      refl (omega arith)
