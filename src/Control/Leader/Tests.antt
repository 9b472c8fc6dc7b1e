-- ===== src/Control/Leader/Tests.antt =====
-- Concrete histories of src/control/leader.ts.
use barycenter.Prelude.{◌≡◌, ◌≢◌, refl, [], ◌∷◌}
use barycenter.Control.Leader.{
  LeaderSession, by_error, Loss, granted, refused, LeaderElection, fresh, answer, on_lost,
  try_acquire, leads, assert_leader, step_down, answered, at_rest, moves, refusal,
}
use barycenter.Control.Leader.Office.{assert_leader-after_loss, assert_leader-early_loss}

abbrev first_session : LeaderSession
first_session = record { token = 7; since = 0 }

abbrev in_office : LeaderElection
in_office = (answer (granted first_session []) fresh).0

abbrev cut_off : Loss
cut_off = record { kind = by_error; reason = 1 }

abbrev out_of_office : LeaderElection
out_of_office = on_lost cut_off in_office

assert_leader-after_loss_example :
    (assert_leader (answer (refused 2) out_of_office).0 ≢ leads 7)
    × (assert_leader (step_down in_office) ≢ leads 7)
assert_leader-after_loss_example =
    assert_leader-after_loss cut_off in_office (answer (refused 2) out_of_office).0
      (step_down in_office) 7
      (moves out_of_office (answer (refused 2) out_of_office).0 (answer (refused 2) out_of_office).0
        (answered (refused 2) out_of_office) (refusal 2 out_of_office)
        (at_rest (answer (refused 2) out_of_office).0))
      (at_rest (step_down in_office))

assert_leader-early_loss_example :
    assert_leader (try_acquire (granted first_session (cut_off ∷ [])) fresh).0 ≡ leads 7
assert_leader-early_loss_example = assert_leader-early_loss first_session cut_off [] fresh refl
