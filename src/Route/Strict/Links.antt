-- ===== src/Route/Strict/Links.antt =====
-- Elements with a way between them.
use barycenter.Prelude.{ℕ}

-- Two elements with a way between them.
pub data Linked (R : ℕ → ℕ → Type 0) : ℕ → ℕ → Type 0 where
  at_start : (x : ℕ) → Linked R x x
  along : (x y z : ℕ) → R x y → Linked R y z → Linked R x z

pub Linked-trans : (R : ℕ → ℕ → Type 0) (x y z : ℕ) → Linked R x y → Linked R y z → Linked R x z
Linked-trans R _ _ z (at_start x) k = k
Linked-trans R _ _ z (along x w y r h) k = along x w z r (Linked-trans R w y z h k)

pub Linked-comm :
    (R : ℕ → ℕ → Type 0) (back : (x y : ℕ) → R x y → R y x) (x y : ℕ) → Linked R x y → Linked R y x
Linked-comm R back _ _ (at_start x) = at_start x
Linked-comm R back _ _ (along x w y r h) =
    Linked-trans R y w x (Linked-comm R back w y h) (along w x x (back x w r) (at_start x))
