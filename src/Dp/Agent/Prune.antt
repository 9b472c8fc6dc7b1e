-- ===== src/Dp/Agent/Prune.antt =====
-- src/dp/agent.ts, `prune`: what the agent forgets before it saves. Answers and evidences are kept
-- up to a number; the end of a transition is forgotten when its place can be taken no more.
use barycenter.Prelude.{
  ℕ, Bool, false, not, ◌&&◌, ◌||◌, Option, none, some, List, [], ◌∷◌, ◌++◌, ltb, leb, ◌==◌,
  if◌then◌else◌, Eq, Assoc, is_some, lookup, erase, keys, nat_eq, ◌+◌, ◌-◌,
}
use barycenter.Dp.Operation.{http, stream, at}
use barycenter.Dp.Agent.State.{
  PlaneAuthor, TerminalKey, of_transition, terminal_keys, CompletedKey, completed_keys, Completed,
  Position, position_keys, Reservation, AgentState, same_identity, completed_key_eq,
}
use barycenter.Dp.Agent.Identity.{op_author, holder_author, record_author, slot_at, transition_key}

module _ {A : Type 0} where
  abbrev pub count_of : List A → ℕ
  count_of [] = 0
  count_of (x ∷ xs) = count_of xs + 1

  unfoldable pub take : ℕ → List A → List A
  take n [] = []
  take n (x ∷ xs) = let rest = take (n - 1) xs in if n == 0 then [] else x ∷ rest

  unfoldable pub keep : (A → Bool) → List A → List A
  keep p [] = []
  keep p (x ∷ xs) = if p x then x ∷ keep p xs else keep p xs

  unfoldable pub member : ⦃e : Eq A⦄ → A → List A → Bool
  member ⦃e⦄ a [] = false
  member ⦃e⦄ a (x ∷ xs) = e.beq x a || member a xs

unfoldable pub erase_all : {K V : Type 0} ⦃e : Eq K⦄ → List K → Assoc K V → Assoc K V
erase_all [] m = m
erase_all (k ∷ ks) m = erase_all ks (erase k m)

abbrev pub evidence_retention : ℕ
evidence_retention = 64

abbrev pub completed_retention : ℕ
completed_retention = 64

unfoldable pub is_standing : AgentState → Position → Bool
is_standing s k = (at s.planes k.plane).coordinate.activation_epoch == k.epoch

unfoldable pub prune_evidence : AgentState → AgentState
unfolding keep take erase_all is_standing
prune_evidence s =
    let ks = keys s.activation_evidence in
    let drop = take (count_of ks - evidence_retention) (keep (λ k. not (is_standing s k)) ks) in
    if leb (count_of ks) evidence_retention
    then s
    else record s { activation_evidence = erase_all drop s.activation_evidence }

abbrev add_both : {A : Type 0} → (A → PlaneAuthor) → Option A → List TerminalKey
add_both author none = []
add_both author (some r) = of_transition (author r) http ∷ of_transition (author r) stream ∷ []

unfoldable pub slot_transitions : Assoc ℕ Reservation → List TerminalKey
slot_transitions [] = []
slot_transitions ((e, slot) ∷ m) = transition_key slot.op ∷ slot_transitions m

unfoldable pub live_transition_keys : AgentState → List TerminalKey
unfolding slot_transitions
live_transition_keys s =
    add_both holder_author s.active_operation
    ++ (add_both (λ j. op_author j.op) s.journal
        ++ (add_both record_author s.last_activated
            ++ (add_both record_author s.last_publish_intent
                ++ (add_both record_author s.pending_activation
                    ++ (slot_transitions s.reservations.at_http
                        ++ slot_transitions s.reservations.at_stream)))))

unfoldable pub terminal_prunable :
    Option Position → AgentState → TerminalKey → List TerminalKey → Bool
unfolding member
terminal_prunable none s k live = false
terminal_prunable (some meta) s k live =
    ltb meta.epoch (at s.planes meta.plane).coordinate.activation_epoch
    && not (is_some (slot_at s meta.plane meta.epoch))
    && not (member k live)

unfoldable pub prune_end : List TerminalKey → AgentState → TerminalKey → Position → AgentState
prune_end live s k meta =
    if not (is_some (lookup k s.terminal))
    then record s { terminal_at = erase k s.terminal_at }
    else if terminal_prunable (some meta) s k live
    then record s { terminal = erase k s.terminal; terminal_at = erase k s.terminal_at }
    else s

unfoldable pub prune_terminals :
    List TerminalKey → Assoc TerminalKey Position → AgentState → AgentState
prune_terminals live [] s = s
prune_terminals live ((k, meta) ∷ m) s = prune_terminals live m (prune_end live s k meta)

unfoldable pub prune_terminal : AgentState → AgentState
prune_terminal s = prune_terminals (live_transition_keys s) s.terminal_at s

-- The transition that an answer belongs to; an older answer stands for itself.
pub data AnswerName : Type 0 where
  of_author : PlaneAuthor → AnswerName
  of_key : CompletedKey → AnswerName

abbrev answer_name_eq : AnswerName → AnswerName → Bool
answer_name_eq (of_author a) (of_author b) = same_identity a b
answer_name_eq (of_key a) (of_key b) = completed_key_eq a b
answer_name_eq (of_author _) (of_key _) = false
answer_name_eq (of_key _) (of_author _) = false

abbrev name_in : AnswerName → List AnswerName → Bool
name_in a [] = false
name_in a (x ∷ xs) = answer_name_eq x a || name_in a xs

abbrev pub name_of_answer : CompletedKey × Completed → AnswerName
name_of_answer (k, c) = elim c.transition [ none ↦ of_key k | some a ↦ of_author a ]

-- The names in the order of their first answer.
unfoldable pub answer_order : List AnswerName → Assoc CompletedKey Completed → List AnswerName
answer_order seen [] = seen
answer_order seen (kc ∷ m) =
    answer_order
      (if name_in (name_of_answer kc) seen then seen else seen ++ (name_of_answer kc ∷ [])) m

unfoldable pub drop_answers :
    List AnswerName → Assoc CompletedKey Completed → Assoc CompletedKey Completed
drop_answers drop [] = []
drop_answers drop (kc ∷ m) =
    if name_in (name_of_answer kc) drop then drop_answers drop m else kc ∷ drop_answers drop m

abbrev add_name : {A : Type 0} → (A → PlaneAuthor) → Option A → List AnswerName
add_name author none = []
add_name author (some r) = of_author (author r) ∷ []

abbrev live_names : AgentState → List AnswerName
live_names s = add_name holder_author s.active_operation ++ add_name (λ j. op_author j.op) s.journal

unfoldable pub prune_completed : AgentState → AgentState
unfolding answer_order drop_answers keep take
prune_completed s =
    let order = answer_order [] s.completed in
    let live = live_names s in
    let drop =
      take (count_of order - completed_retention) (keep (λ t. not (name_in t live)) order) in
    record s { completed = drop_answers drop s.completed }

unfoldable pub prune : AgentState → AgentState
prune s = prune_completed (prune_terminal (prune_evidence s))
