-- ===== src/Deployment/Status/Paths.antt =====
-- Chains of allowed status changes.
use hello_deploy.Prelude.{
  ℕ, zero, suc, ap, ◌⊎◌, inl, inr, ◌+◌, ◌≤◌, ◌<◌, ◌≡◌, ◌≢◌, refl, true, false, ◌↔◌, arith,
}
use hello_deploy.Contracts.Enums.{
  DeploymentStatus, queued, validating, building, deploying, healthy, failed, cancelled,
  rolled_back,
}
use hello_deploy.Deployment.Status.{can_transition, is_terminal, is_active}

-- A chain of `n` allowed changes.
pub data Chain : DeploymentStatus → ℕ → DeploymentStatus → Type 0 where
  here : {s : DeploymentStatus} → Chain s 0 s
  step :
      {s : DeploymentStatus} (t : DeploymentStatus) {u : DeploymentStatus} {n : ℕ}
      → can_transition s t ≡ true
      → Chain t n u
      → Chain s (suc n) u

-- How far a status is along the life cycle.
abbrev rank : DeploymentStatus → ℕ
rank queued = 0
rank validating = 1
rank building = 2
rank deploying = 3
rank healthy = 4
rank failed = 5
rank cancelled = 5
rank rolled_back = 5

can_transition-lt-rank : (s t : DeploymentStatus) → can_transition s t ≡ true → rank s < rank t
unfolding can_transition
can_transition-lt-rank s t h = ground arith

Chain-rank : {s t : DeploymentStatus} {n : ℕ} → Chain s n t → rank s + n ≤ rank t
Chain-rank here = omega arith
Chain-rank (step {s} t h c) = omega (arith, can_transition-lt-rank s t h, Chain-rank c)

rank_le : (s : DeploymentStatus) → rank s ≤ 5
rank_le s = ground arith

from_building : Chain building 2 healthy
unfolding can_transition
from_building = step deploying refl (step healthy refl here)

from_validating : Chain validating 3 healthy
unfolding can_transition
from_validating = step building refl from_building

-- No chain of allowed changes has more than five steps, and one of at least one step ends in
-- another status than it began with.
pub transitions_acyclic :
    (s t : DeploymentStatus) (n : ℕ) → Chain s n t → (n ≤ 5) × ((n ≡ 0) ⊎ (s ≢ t))
transitions_acyclic s t zero c = (omega arith, inl refl)
transitions_acyclic s t (suc n) c = (
  omega (arith, Chain-rank c, rank_le t),
  inr (λ e. absurd (omega (arith, Chain-rank c, ap rank e))),
)

-- An active status is not terminal, becomes healthy in at most four allowed changes, and can be
-- cancelled at once.
pub active_can_finish :
    (s : DeploymentStatus)
    → is_active s ≡ true
    → (is_terminal s ≡ false)
      × ((n : ℕ) × (n ≤ 4) × Chain s n healthy)
      × (can_transition s cancelled ≡ true)
unfolding is_active is_terminal can_transition
active_can_finish queued h = (refl, (4, omega arith, step validating refl from_validating), refl)
active_can_finish validating h = (refl, (3, omega arith, from_validating), refl)
active_can_finish building h = (refl, (2, omega arith, from_building), refl)
active_can_finish deploying h = (refl, (1, omega arith, step healthy refl here), refl)
active_can_finish healthy h = cc
active_can_finish failed h = cc
active_can_finish cancelled h = cc
active_can_finish rolled_back h = cc

-- A terminal status is not active, and the only change that it allows is from healthy to rolled
-- back.
pub terminal_may_roll_back :
    (s t : DeploymentStatus)
    → is_terminal s ≡ true
    → (is_active s ≡ false) × ((can_transition s t ≡ true) ↔ ((s ≡ healthy) × (t ≡ rolled_back)))
unfolding is_active is_terminal can_transition
terminal_may_roll_back s t h = (ground arith, ground arith)
