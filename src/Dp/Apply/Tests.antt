-- ===== src/Dp/Apply/Tests.antt =====
-- Concrete runs of src/dp/apply.ts: an operation on both planes, over an engine that serves what was
-- published last as soon as it is told to reload.
use barycenter.Prelude.{ℕ, ◌≢◌, refl, true, none, some, [], ◌∷◌, IsAll}
use barycenter.Dp.Operation.{
  Name, http, stream, both, ApplyOperation, PlaneTarget, ActivationEvidence, PublishedState, owned,
  nothing,
}
use barycenter.Dp.Agent.State.{initial}
use barycenter.Dp.Apply.Monad.{Effects, answered, too_late, timed_out, Runner, thrown}
use barycenter.Dp.Apply.Drive.{run_operation, recover}
use barycenter.Dp.Apply.Timely.{run_operation-ends_in_time}
use barycenter.Dp.Apply.WriteAhead.{IsWrittenBefore, run_operation-IsWrittenBefore}

-- What is published, and the generation that is served.
record Engine : Type 0 where
  published : PublishedState
  serving : ℕ

abbrev evidence_for : Name → ActivationEvidence
evidence_for g = record {
  accepting_generation = some g;
  config_test_passed = some true;
  error_log_growth = some 0;
  master_pid = none;
  workers_reported = some 4;
  workers_expected = some 4;
}

abbrev generation_of : PublishedState → Name
generation_of (owned r) = r.generation
generation_of _ = 0

abbrev sound_engine : Effects Engine
sound_engine = record {
  preflight =
      λ op w. (w, answered (record { passed = true; reason = none; config_test_errored = none }));
  publish = λ r w. (record w { published = owned r }, answered tt);
  observe_published = λ w. (w, answered w.published);
  signal_reload = λ w. (record w { serving = generation_of w.published }, answered tt);
  observe_activation = λ w. (w, answered (some (evidence_for w.serving)));
  stage_membership = none;
  others = λ w. (w, []);
  text_of = λ r. 0;
  poll_attempts = 3;
}

abbrev first_target : PlaneTarget
first_target = record {
  expected_current = record { activation_epoch = 0; membership_revision = 0 };
  target = record { activation_epoch = 1; membership_revision = 1 };
  payload_digest = 7;
}

abbrev first_operation : ApplyOperation
first_operation = record {
  leader_token = 2;
  operation_id = 10;
  transition_id = 20;
  affected_planes = http ∷ stream ∷ [];
  planes = both (some first_target);
  target_generation = 5;
  generation_digest = 6;
}

abbrev fresh_runner : Runner Engine
fresh_runner = record {
  agent = initial;
  world = record { published = nothing; serving = 0 };
  history = [];
  calls = [];
}

run_operation-IsWrittenBefore_example :
    IsAll IsWrittenBefore (run_operation sound_engine first_operation fresh_runner).0.calls
    × IsAll IsWrittenBefore (recover sound_engine fresh_runner).0.calls
run_operation-IsWrittenBefore_example =
    run_operation-IsWrittenBefore sound_engine first_operation fresh_runner refl

-- The same engine, whose reload does not answer.
abbrev silent_engine : Effects Engine
silent_engine = record sound_engine { signal_reload = λ w. (w, too_late) }

run_operation-ends_in_time_example :
    ((run_operation silent_engine first_operation fresh_runner).1 ≢ thrown timed_out)
    × ((recover silent_engine fresh_runner).1 ≢ thrown timed_out)
run_operation-ends_in_time_example =
    run_operation-ends_in_time silent_engine first_operation fresh_runner
