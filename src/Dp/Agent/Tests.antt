-- ===== src/Dp/Agent/Tests.antt =====
-- Concrete runs of src/dp/agent.ts and src/dp/operation.ts: an operation on the http plane that a
-- leader with token 2 sends to a fresh agent, and what an older leader gets afterwards.
use barycenter.Prelude.{
  ◌≡◌, refl, true, false, none, some, [], ◌∷◌, arith, inl, ◌⊎◌, lookup, insert, erase, keys,
}
use barycenter.Dp.Operation.{http, ActivationEvidence, proves_activation, proves_evidence}
use barycenter.Dp.Agent.State.{
  OperationTuple, PlaneAck, TerminalKind, Rejection, terminal, Result, ok, err, StepName,
  AgentState, initial, Reservation,
}
use barycenter.Dp.Agent.Identity.{same_tuple, terminal_of, authored_by}
use barycenter.Dp.Agent.Rules.{
  admit, judge, assert_leader, acquire, acquire_new, record_step, set_slot, delete_slot, owns_slot,
  release_own_slot, finish, finalize,
}
use barycenter.Dp.Agent.Verbs.{
  stage, stage_admitted, commit, commit_admitted, commit_new, check_slot, move_plane, propose,
  already_there, fail, fence, fence_holder,
}
use barycenter.Dp.Agent.Prune.{
  prune, prune_evidence, prune_terminal, prune_terminals, prune_completed, erase_all,
}
use barycenter.Dp.Agent.Checks.{assert_invariants, baseline_is_unproposed}
use barycenter.Dp.Agent.Requests.{stage_plane, reserve_plane, commit_plane, handle, transact, run}
use barycenter.Dp.Agent.Answers.{again}
use barycenter.Dp.Agent.Replay.{perform, perform-perform}
use barycenter.Dp.Agent.Commits.{IsCommitted, IsJustified, commit-IsCommitted}
use barycenter.Dp.Agent.Fencing.{fence-rejects_older}
use barycenter.Dp.Agent.Slots.{IsWellFormedSlot}
use barycenter.Dp.Agent.History.{
  NotEarlier, run-NotEarlier, run-IsWellFormedSlot, IsMonotone, handle-IsMonotone,
}
use barycenter.Dp.Agent.Baseline.{IsFromCandidate}
use barycenter.Dp.Agent.Candidates.{handle-prune-IsFromCandidate}
use barycenter.Dp.Agent.Ends.{finalize-prune-perform}

abbrev sample_tuple : OperationTuple
sample_tuple = record {
  leader_token = 2;
  operation_id = 10;
  transition_id = 20;
  plane = http;
  expected_current = record { activation_epoch = 0; membership_revision = 0 };
  target = record { activation_epoch = 1; membership_revision = 1 };
  payload_digest = 7;
  target_generation = 5;
  generation_digest = 6;
}

abbrev sample_evidence : ActivationEvidence
sample_evidence = record {
  accepting_generation = some 5;
  config_test_passed = some true;
  error_log_growth = some 0;
  master_pid = none;
  workers_reported = some 4;
  workers_expected = some 4;
}

abbrev state_after : {A : Type 0} → Result (AgentState × A) → AgentState
state_after (ok r) = r.0
state_after (err e) = initial

abbrev state_of_end : Result AgentState → AgentState
state_of_end (ok s) = s
state_of_end (err e) = initial

abbrev staged : AgentState
staged = state_after (stage initial sample_tuple)

abbrev committed : AgentState
committed = state_after (commit staged sample_tuple sample_evidence)

commit-IsCommitted_example :
    IsCommitted staged committed sample_tuple
    × ((already_there staged sample_tuple ≡ true) ⊎ IsJustified staged sample_tuple sample_evidence)
unfolding initial admit judge assert_leader terminal_of lookup insert erase same_tuple stage
    stage_admitted acquire acquire_new record_step set_slot delete_slot owns_slot release_own_slot
    finish commit commit_admitted commit_new check_slot move_plane propose already_there authored_by
    proves_activation proves_evidence
commit-IsCommitted_example = commit-IsCommitted staged sample_tuple sample_evidence refl refl

abbrev other_evidence : ActivationEvidence
other_evidence = record sample_evidence { accepting_generation = none }

abbrev sample_ack : PlaneAck
sample_ack = record {
  state = record {
    coordinate = sample_tuple.target;
    payload_digest = 7;
    by = some (record { operation_id = 10; transition_id = 20; leader_token = 2 });
  };
  plane = http;
  transition_id = 20;
  cached = false;
}

perform-perform_example :
    perform StepName.commit committed sample_tuple other_evidence ≡ ok (committed, again sample_ack)
unfolding initial admit judge assert_leader terminal_of lookup insert erase same_tuple stage
    stage_admitted acquire acquire_new record_step set_slot delete_slot owns_slot release_own_slot
    finish commit commit_admitted commit_new check_slot move_plane propose already_there authored_by
    proves_activation proves_evidence
perform-perform_example =
    perform-perform StepName.commit staged sample_tuple sample_evidence other_evidence refl

fence-rejects_older_example :
    (e : Rejection) × (handle
        (run (state_after (fence initial 3)) (stage_plane sample_tuple ∷ []))
        (stage_plane sample_tuple)
      ≡ err e)
unfolding fence fence_holder initial assert_leader run
fence-rejects_older_example =
    fence-rejects_older [] (stage_plane sample_tuple ∷ []) 3 (stage_plane sample_tuple) refl refl
      (omega arith)

run-NotEarlier_example :
    NotEarlier
      (run initial (stage_plane sample_tuple ∷ []))
      (run (run initial (stage_plane sample_tuple ∷ [])) (reserve_plane sample_tuple ∷ []))
run-NotEarlier_example =
    run-NotEarlier (stage_plane sample_tuple ∷ []) (reserve_plane sample_tuple ∷ [])

abbrev sample_slot : Reservation
sample_slot = record { op = sample_tuple; staged_digest = some 7 }

run-IsWellFormedSlot_example :
    IsWellFormedSlot (run initial (stage_plane sample_tuple ∷ [])) http 1 sample_slot
unfolding initial admit judge assert_leader terminal_of lookup insert erase same_tuple stage
    stage_admitted acquire acquire_new record_step set_slot run transact handle assert_invariants
    prune prune_evidence prune_terminal prune_completed prune_terminals erase_all keys
run-IsWellFormedSlot_example =
    run-IsWellFormedSlot (stage_plane sample_tuple ∷ []) http 1 sample_slot refl

handle-IsMonotone_example :
    IsMonotone (run initial []) (prune (state_after (stage initial sample_tuple)))
unfolding initial admit judge assert_leader terminal_of lookup insert erase same_tuple stage
    stage_admitted acquire acquire_new record_step set_slot handle run
handle-IsMonotone_example = handle-IsMonotone [] (stage_plane sample_tuple) refl

abbrev given_up : AgentState
given_up = state_of_end (fail staged sample_tuple)

finalize-prune-perform_example :
    ((step : StepName) (evidence : ActivationEvidence)
      → perform step (prune given_up) sample_tuple evidence ≡ err (terminal TerminalKind.failed))
    × (finalize (prune given_up) sample_tuple TerminalKind.failed ≡ ok (prune given_up))
    × (finalize (prune given_up) sample_tuple TerminalKind.activated
        ≡ err (terminal TerminalKind.failed))
unfolding initial admit judge assert_leader terminal_of lookup insert erase same_tuple stage
    stage_admitted acquire acquire_new record_step set_slot fail finalize finish release_own_slot
    owns_slot delete_slot
finalize-prune-perform_example =
    finalize-prune-perform staged sample_tuple TerminalKind.failed TerminalKind.activated (inl refl)
      (λ e. cc) refl tt (omega arith) refl

handle-prune-IsFromCandidate_example :
    (baseline_is_unproposed staged (prune committed) ≡ false)
    × IsFromCandidate staged (prune committed)
unfolding initial admit judge assert_leader terminal_of lookup insert erase same_tuple stage
    stage_admitted acquire acquire_new record_step set_slot delete_slot owns_slot release_own_slot
    finish commit commit_admitted commit_new check_slot move_plane propose already_there authored_by
    proves_activation proves_evidence handle
handle-prune-IsFromCandidate_example =
    handle-prune-IsFromCandidate staged (commit_plane sample_tuple sample_evidence) refl
