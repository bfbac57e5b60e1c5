-- ===== src/Deployment/Ports.antt =====
-- apps/worker/src/deployment/port-allocator.js: claiming a loopback port for a container.
-- What other actors do between two awaits is the parameter `world`: what a read of the collection
-- finds of the other deployments, and whether a port can be bound.
pub mod Claims
pub mod Race
use hello_deploy.Prelude.{
  ℕ, zero, suc, ◌+◌, ◌-◌, Bool, true, false, ◌&&◌, ◌||◌, not, Option, none, some, List, [], ◌∷◌,
  ltb, ◌==◌, if◌then◌else◌, includes, ℕ_eq,
}
use hello_deploy.Contracts.Enums.{
  DeploymentStatus, DeploymentStatus-eq, queued, validating, building, deploying, healthy,
}

-- `MAX_CLAIM_ATTEMPTS`
abbrev pub max_claim_attempts : ℕ
max_claim_attempts = 5

abbrev pub non_terminal_statuses : List DeploymentStatus
non_terminal_statuses = deploying ∷ healthy ∷ queued ∷ validating ∷ building ∷ []

-- What the allocator reads of another deployment. Ids are strings of equal length, so comparing
-- them as strings is comparing the numbers that they write.
pub record Other : Type 0 where
  pub id : ℕ
  pub status : DeploymentStatus
  pub container_port : Option ℕ

pub record World : Type 0 where
  -- the other deployments, as the n-th read of the collection finds them
  pub others : ℕ → List Other
  -- `probePortFree` at the n-th read
  pub probe : ℕ → ℕ → Bool

abbrev pub holds : ℕ → Option ℕ → Bool
holds port none = false
holds port (some p) = p == port

-- The filter `status: {$in: NON_TERMINAL_STATUSES}, containerPort: port`.
unfoldable pub is_holder : ℕ → Other → Bool
is_holder port o = includes non_terminal_statuses o.status && holds port o.container_port

-- `usedPorts.has(port)`
unfoldable pub is_used : ℕ → List Other → Bool
is_used port [] = false
is_used port (o ∷ os) = is_holder port o || is_used port os

-- The loop of `findFreePort`: `left` ports from `port` on are still to be tried.
unfoldable pub scan : List Other → List ℕ → ℕ → ℕ → Option ℕ
scan os skip zero port = none
scan os skip (suc left) port =
    let rest = scan os skip left (suc port) in
    if not (is_used port os) && not (includes skip port) then some port else rest

-- `Deployment.findOne({_id: {$ne}, status, containerPort})`
unfoldable pub rival : ℕ → List Other → Option ℕ
rival port [] = none
rival port (o ∷ os) = let rest = rival port os in if is_holder port o then some o.id else rest

-- `!rival || String(deploymentId) < String(rival._id)`
abbrev pub wins : ℕ → Option ℕ → Bool
wins id none = true
wins id (some r) = ltb id r

pub data Outcome : Type 0 where
  claimed : ℕ → Outcome
  -- the two errors that `allocatePort` throws
  exhausted collided : Outcome

module _ (range_start range_end id : ℕ) (world : World) where
  -- `findFreePort`, at the n-th read
  unfoldable pub find_free_port : ℕ → List ℕ → Option ℕ
  unfolding scan
  find_free_port n skip = scan (world.others n) skip (suc range_end - range_start) range_start

  -- The loop of `allocatePort`. The state is the set of skipped ports and the `containerPort` of
  -- the deployment's own document; an attempt reads the collection twice.
  unfoldable pub attempts : ℕ → ℕ → List ℕ → Option ℕ → Outcome × Option ℕ
  attempts zero n skip own = (collided, own)
  attempts (suc left) n skip own = elim (find_free_port n skip) [
    | none ↦ (exhausted, own)
    | some port ↦ elim (wins id (rival port (world.others (suc n)))) [
      | true ↦ elim (world.probe (suc n) port) [
        | true ↦ (claimed port, some port)
        | false ↦ attempts left (suc (suc n)) (port ∷ skip) none
      ]
      | false ↦ attempts left (suc (suc n)) skip none
    ]
  ]

  unfoldable pub allocate_port : Option ℕ → Outcome × Option ℕ
  unfolding attempts
  allocate_port own = attempts max_claim_attempts 0 [] own
