-- ===== src/Dp/Agent/Slots.antt =====
-- The slots of reservation: what a write or a deletion of one slot does to the others, and when a
-- slot is well formed.
use barycenter.Prelude.{
  ℕ, ◌≤◌, ◌<◌, ◌≡◌, refl, ◌&&◌, ◌==◌, if◌then◌else◌, none, some, arith, lookup-insert, lookup-erase,
  nat_eq,
}
use barycenter.Dp.Operation.{Plane, http, stream, plane_eq, plane_eq_iff}
use barycenter.Dp.Agent.State.{Reservation, AgentState}
use barycenter.Dp.Agent.Identity.{slot_at}
use barycenter.Dp.Agent.Rules.{set_slot, delete_slot}

pub slot_at-set_slot :
    (s : AgentState) (p q : Plane) (e f : ℕ) (slot : Reservation)
    → slot_at (set_slot s p e slot) q f
      ≡ (if plane_eq p q && e == f then some slot else slot_at s q f)
unfolding set_slot
slot_at-set_slot s http http e f slot = lookup-insert e f slot _
slot_at-set_slot s http stream e f slot = refl
slot_at-set_slot s stream http e f slot = refl
slot_at-set_slot s stream stream e f slot = lookup-insert e f slot _

pub slot_at-delete_slot :
    (s : AgentState) (p q : Plane) (e f : ℕ)
    → slot_at (delete_slot s p e) q f ≡ (if plane_eq p q && e == f then none else slot_at s q f)
unfolding delete_slot
slot_at-delete_slot s http http e f = lookup-erase e f _
slot_at-delete_slot s http stream e f = refl
slot_at-delete_slot s stream http e f = refl
slot_at-delete_slot s stream stream e f = lookup-erase e f _

-- A slot lies under its own plane and epoch, was taken for an epoch above the one that it expects,
-- and by a token that is not above the highest seen.
pub record IsWellFormedSlot (s : AgentState) (p : Plane) (e : ℕ) (slot : Reservation) : Type 0 where
  pub own_plane : slot.op.plane ≡ p
  pub own_epoch : slot.op.target.activation_epoch ≡ e
  pub forward : slot.op.expected_current.activation_epoch < e
  pub fenced : slot.op.leader_token ≤ s.max_leader_token

abbrev pub SlotsAreWellFormed : AgentState → Type 0
SlotsAreWellFormed s =
    (p : Plane) (e : ℕ) (slot : Reservation)
    → slot_at s p e ≡ some slot
    → IsWellFormedSlot s p e slot

pub set_slot-SlotsAreWellFormed :
    (s : AgentState) (p : Plane) (e : ℕ) (slot : Reservation)
    → SlotsAreWellFormed s
    → IsWellFormedSlot s p e slot
    → SlotsAreWellFormed (set_slot s p e slot)
unfolding set_slot
set_slot-SlotsAreWellFormed s p e slot h w q f found at_f =
    ground (arith, slot_at-set_slot s p q e f slot, plane_eq_iff p q, h q f found)

pub delete_slot-SlotsAreWellFormed :
    (s : AgentState) (p : Plane) (e : ℕ)
    → SlotsAreWellFormed s
    → SlotsAreWellFormed (delete_slot s p e)
unfolding delete_slot
delete_slot-SlotsAreWellFormed s p e h q f found at_f =
    ground (arith, slot_at-delete_slot s p q e f, h q f found)

-- To be well formed is of a slot and of the highest token alone.
pub IsWellFormedSlot-set_slot :
    (q : Plane) (f : ℕ) (other : Reservation) {s : AgentState} {p : Plane} {e : ℕ}
    {slot : Reservation}
    → IsWellFormedSlot s p e slot
    → IsWellFormedSlot (set_slot s q f other) p e slot
unfolding set_slot
IsWellFormedSlot-set_slot q f other w = record {
  own_plane = w.own_plane;
  own_epoch = w.own_epoch;
  forward = w.forward;
  fenced = w.fenced;
}
