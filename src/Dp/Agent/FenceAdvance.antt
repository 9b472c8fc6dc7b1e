-- ===== src/Dp/Agent/FenceAdvance.antt =====
-- A fence moves the state forward, and the token that it saw is the newest.
use barycenter.Prelude.{
  ℕ, ◌≤◌, ◌<◌, ◌≡◌, ◌⊎◌, refl, some, arith, Bool-cases, Option-cases, inl, inr, ltb,
}
use barycenter.Dp.Agent.State.{ok, ActiveOperation, AgentState}
use barycenter.Dp.Agent.Settle.{supersede}
use barycenter.Dp.Agent.Verbs.{fence, fence_holder, set_token}
use barycenter.Dp.Agent.Ensures.{Ensures, Ensures-of}
use barycenter.Dp.Agent.Slots.{SlotsAreWellFormed}
use barycenter.Dp.Agent.Advance.{
  Advances, Advances-refl, Advances-trans, Advances-slots, supersede-Advances,
}
use barycenter.Dp.Agent.VerbsAdvance.{fence_lem}

pub fence_holder_lem :
    (s : AgentState) (token : ℕ)
    → (fence_holder s token ≡ s)
      ⊎ ((holder : ActiveOperation) × (s.active_operation ≡ some holder)
          × (holder.leader_token < token)
          × (fence_holder s token ≡ supersede s holder))
unfolding fence_holder
fence_holder_lem s token = elim (Option-cases s.active_operation) [
  | inl idle ↦ inl (ground arith)
  | inr (holder, held) ↦ elim (Bool-cases (ltb holder.leader_token token)) [
    | inl older ↦ inr (holder, held, ground arith, ground arith)
    | inr same ↦ inl (ground arith)
  ]
]

pub fence_holder-Advances :
    (s : AgentState) (token : ℕ) → SlotsAreWellFormed s → Advances s (fence_holder s token)
fence_holder-Advances s token h = elim (fence_holder_lem s token) [
  | inl kept ↦ rw kept (Advances-refl s h)
  | inr (holder, _, _, gone) ↦ rw gone (supersede-Advances s holder h)
]

set_token-Advances :
    (s : AgentState) (token : ℕ)
    → SlotsAreWellFormed s
    → s.max_leader_token ≤ token
    → Advances s (set_token s token)
set_token-Advances s token h le =
    Advances-slots le refl refl (λ p e slot found. let w = h p e slot found in ground arith)

pub fence-Advances :
    (s : AgentState) (token : ℕ)
    → SlotsAreWellFormed s
    → Ensures (λ r. Advances s r.0) (fence s token)
fence-Advances s token h =
    Ensures-of (λ r. Advances s r.0) (fence s token)
      λ r e.
        let (le, same) = fence_lem s token {t = r.0} {seen = r.1} e in
        let a = set_token-Advances s token h le in
        rw same (Advances-trans a (fence_holder-Advances (set_token s token) token a.slots))

-- After a fence the highest token is the fencing one.
pub fence-token :
    (s : AgentState) (token : ℕ) {t : AgentState} {seen : ℕ}
    → SlotsAreWellFormed s
    → fence s token ≡ ok (t, seen)
    → token ≤ t.max_leader_token
fence-token s token h e =
    let (le, same) = fence_lem s token e in
    let a = set_token-Advances s token h le in
    rw same (fence_holder-Advances (set_token s token) token a.slots).token
