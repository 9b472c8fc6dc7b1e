-- ===== src/Dp/Agent/Answers.antt =====
-- The answers that a state has on record: what admission makes of one, and that what is recorded
-- is answered.
use barycenter.Prelude.{ℕ, ◌≡◌, refl, true, Option, none, some, arith, lookup, lookup-insert_self}
use barycenter.Dp.Agent.State.{
  OperationTuple, PlaneAck, PlaneState, TerminalKind, Result, ok, ◌>>=◌, StepName, completed_keys,
  terminal_keys, Completed, AgentState,
}
use barycenter.Dp.Agent.Identity.{same_tuple_iff, tuple_author, completed_key, terminal_of}
use barycenter.Dp.Agent.Rules.{judge, admit, raise_token, record_step}
use barycenter.Dp.Agent.Verbs.{unless_replayed}
use barycenter.Dp.Agent.Ensures.{bind-ok}

abbrev pub again : PlaneAck → PlaneAck
again ack = record ack { cached = true }

-- A transition that has neither failed nor been given up.
pub data IsOpen : Option TerminalKind → Type 0 where
  unended : IsOpen none
  ended_well : IsOpen (some TerminalKind.activated)

-- The answer to a step is on record, by the newest leader.
pub record IsAnswered (s : AgentState) (op : OperationTuple) (step : StepName) (ack : PlaneAck)
    : Type 0 where
  pub newest : s.max_leader_token ≡ op.leader_token
  pub is_open : IsOpen (terminal_of s (tuple_author op) op.plane)
  pub entry : Completed
  pub found : lookup (completed_key op step) s.completed ≡ some entry
  pub same : entry.tuple ≡ op
  pub answer : again entry.ack ≡ again ack

judge-answered :
    (ended : Option TerminalKind) (c : Completed) (op : OperationTuple)
    → IsOpen ended
    → c.tuple ≡ op
    → judge ended (some c) op ≡ ok (some (again c.ack))
unfolding judge
judge-answered none c op unended same = rw ((same_tuple_iff c.tuple op).1 same)
judge-answered (some TerminalKind.activated) c op ended_well same =
    rw ((same_tuple_iff c.tuple op).1 same)
judge-answered (some TerminalKind.failed) c op o same = elim o [ ]
judge-answered (some TerminalKind.aborted) c op o same = elim o [ ]

pub raise_token-same : (s : AgentState) (n : ℕ) → s.max_leader_token ≡ n → raise_token s n ≡ s
raise_token-same s n e = ground arith

pub terminal_of-raise_token :
    (s : AgentState) (op : OperationTuple)
    → terminal_of (raise_token s op.leader_token) (tuple_author op) op.plane
      ≡ terminal_of s (tuple_author op) op.plane
unfolding terminal_of
terminal_of-raise_token s op = refl

pub admit-IsAnswered :
    (s : AgentState) (op : OperationTuple) (step : StepName) (ack : PlaneAck)
    → IsAnswered s op step ack
    → admit s op step ≡ ok (s, some (again ack))
unfolding admit
admit-IsAnswered s op step ack a = ground (
  arith,
  raise_token-same s op.leader_token a.newest,
  terminal_of-raise_token s op,
  judge-answered (terminal_of s (tuple_author op) op.plane) a.entry op a.is_open a.same,
)

-- What judgement replays.
judge_replay :
    (ended : Option TerminalKind) (seen : Option Completed) (op : OperationTuple) {ack : PlaneAck}
    → judge ended seen op ≡ ok (some ack)
    → IsOpen ended × ((c : Completed) × (seen ≡ some c) × (c.tuple ≡ op) × (ack ≡ again c.ack))
unfolding judge
judge_replay none none op e = cc
judge_replay (some TerminalKind.activated) none op e = cc
judge_replay (some TerminalKind.failed) seen op e = cc
judge_replay (some TerminalKind.aborted) seen op e = cc
judge_replay none (some c) op e =
    (unended, (c, refl, ground (arith, same_tuple_iff c.tuple op), ground arith))
judge_replay (some TerminalKind.activated) (some c) op e =
    (ended_well, (c, refl, ground (arith, same_tuple_iff c.tuple op), ground arith))

-- Admission judges by the state with the operation's token for the highest.
pub admit_judged :
    (s : AgentState) (op : OperationTuple) (step : StepName) {t : AgentState}
    {replay : Option PlaneAck}
    → admit s op step ≡ ok (t, replay)
    → (t.max_leader_token ≡ op.leader_token)
      × (judge
            (terminal_of t (tuple_author op) op.plane)
            (lookup (completed_key op step) t.completed)
            op
          ≡ ok replay)
unfolding admit
admit_judged s op step e = (ground arith, ground (arith, terminal_of-raise_token s op))

pub admit_fresh :
    (s : AgentState) (op : OperationTuple) (step : StepName) {t : AgentState}
    → admit s op step ≡ ok (t, none)
    → (t.max_leader_token ≡ op.leader_token) × (terminal_of t (tuple_author op) op.plane ≡ none)
unfolding judge
admit_fresh s op step e = let (newest, judged) = admit_judged s op step e in (newest, ground arith)

pub admit_replay :
    (s : AgentState) (op : OperationTuple) (step : StepName) {t : AgentState} {ack : PlaneAck}
    → admit s op step ≡ ok (t, some ack)
    → IsAnswered t op step ack
admit_replay s op step e =
    let (newest, judged) = admit_judged s op step e in
    let (open_end, (c, found, same, answer)) = judge_replay _ _ op judged in
    record {
      newest = newest;
      is_open = open_end;
      entry = c;
      found = found;
      same = same;
      answer = ground arith;
    }

pub admit_replay_cached :
    (s : AgentState) (op : OperationTuple) (step : StepName) {t : AgentState} {ack : PlaneAck}
    → admit s op step ≡ ok (t, some ack)
    → ack.cached ≡ true
admit_replay_cached s op step e =
    let (newest, judged) = admit_judged s op step e in
    let (open_end, (c, found, same, answer)) = judge_replay _ _ op judged in ground arith

-- What is recorded is answered.
pub record_step-IsAnswered :
    (s : AgentState) (op : OperationTuple) (step : StepName) (result : PlaneState)
    → s.max_leader_token ≡ op.leader_token
    → IsOpen (terminal_of s (tuple_author op) op.plane)
    → let (t, ack) = record_step s op step result in IsAnswered t op step ack
unfolding record_step terminal_of
record_step-IsAnswered s op step result newest open_end = record {
  newest = newest;
  is_open = open_end;
  entry = _;
  found = lookup-insert_self (completed_key op step) _ s.completed;
  same = refl;
  answer = refl;
}

-- A step answers if its rest does, where nothing is on record yet and the transition has not ended.
pub step-IsAnswered :
    (s : AgentState) (op : OperationTuple) (step : StepName)
    (rest : AgentState → Result (AgentState × PlaneAck)) {t : AgentState} {ack : PlaneAck}
    → ((u : AgentState) (r : AgentState × PlaneAck)
        → u.max_leader_token ≡ op.leader_token
        → terminal_of u (tuple_author op) op.plane ≡ none
        → rest u ≡ ok r
        → IsAnswered r.0 op step r.1)
    → (admit s op step >>= λ r. unless_replayed r.1 r.0 (rest r.0)) ≡ ok (t, ack)
    → IsAnswered t op step ack
step-IsAnswered s op step rest {t} {ack} answers e =
    let (r, admitted, rested) =
      bind-ok (admit s op step) (λ r. unless_replayed r.1 r.0 (rest r.0)) e in
    by_replay r.0 r.1 admitted rested
  where
    by_replay :
        (u : AgentState) (replay : Option PlaneAck)
        → admit s op step ≡ ok (u, replay)
        → unless_replayed replay u (rest u) ≡ ok (t, ack)
        → IsAnswered t op step ack
    by_replay u none admitted rested =
        let (newest, unended_yet) = admit_fresh s op step admitted in
        answers u (t, ack) newest unended_yet rested
    by_replay u (some seen) admitted rested =
        let same_state : u ≡ t = cc in
        let same_ack : seen ≡ ack = cc in
        rw (← same_state, ← same_ack) (admit_replay s op step admitted)
