-- ===== src/Deployment/Tests.antt =====
-- The deployment modules on small inputs.
use hello_deploy.Prelude.{
  ℕ, ◌≤◌, ◌≡◌, ◌≢◌, ◌⊎◌, refl, arith, true, false, Option, none, some, [], ◌∷◌,
}
use hello_deploy.Contracts.Enums.{queued, validating, healthy}
use hello_deploy.Deployment.Status.{can_transition}
use hello_deploy.Deployment.Status.Paths.{Chain}
use hello_deploy.Deployment.Ports.{
  World, is_holder, is_used, scan, rival, claimed, exhausted, find_free_port, attempts,
  allocate_port,
}
use hello_deploy.Deployment.Ports.Claims.{ClaimedAt, allocate_port_sound, allocate_port_quiet}
use hello_deploy.Deployment.Ports.Race.{
  Pair, found, written, kept, Reach, here, next, high_scan, start, low_holds, lower_id_keeps,
  double_claim,
}

abbrev one : ℕ
one = 1

one_step : Chain queued 1 validating
unfolding can_transition
one_step = Chain.step validating refl Chain.here

abbrev no_port : Option ℕ
no_port = none

abbrev port_3001 : Option ℕ
port_3001 = some 3001

-- Another deployment holds the first port of the range, and every port can be bound.
abbrev busy_world : World
busy_world = record {
  others = λ n. record { id = 9; status = healthy; container_port = some 3000 } ∷ [];
  probe = λ n p. true;
}

allocated : allocate_port 3000 3001 5 busy_world none ≡ (claimed 3001, some 3001)
unfolding allocate_port attempts find_free_port scan is_used is_holder rival
allocated = refl

allocate_port_sound_example :
    (port_3001 ≡ some 3001) × ((n : ℕ) × ClaimedAt 3000 3001 5 busy_world n 3001)
allocate_port_sound_example =
    allocate_port_sound 3000 3001 5 busy_world none 3001 (some 3001) allocated

full : allocate_port 3000 3000 5 busy_world none ≡ (exhausted, none)
unfolding allocate_port attempts find_free_port scan is_used is_holder rival
full = refl

allocate_port_quiet_example :
    (p : ℕ) × (allocate_port 3000 3001 5 busy_world none ≡ (claimed p, some p))
    × (p ≤ 3001)
    × (is_used p (busy_world.others 0) ≡ false)
unfolding is_used is_holder
allocate_port_quiet_example =
    allocate_port_quiet 3000 3001 5 busy_world none 3001 refl (λ p. refl) (omega arith)
      (omega arith) refl

abbrev low_written : Pair
low_written = record start { low = written 3000; low_port = some 3000 }

high_moves : Reach 1 2 low_written (record low_written { high = found 3001 })
unfolding is_used is_holder
high_moves = next here (high_scan 3001 refl refl)

abbrev high_found : Pair
high_found = record low_written { high = found 3001 }

lower_id_keeps_example :
    ((low_holds 1 2 3000 high_found ≡ true)
      × ((written 3000 ≡ written 3000) ⊎ (written 3000 ≡ kept 3000))
      × (found 3001 ≢ kept 3000))
    ⊎ ((u : Pair) × Reach 1 2 low_written u
        × Reach 1 2 u high_found
        × (low_holds 1 2 3000 u ≡ false))
unfolding is_used is_holder
lower_id_keeps_example =
    lower_id_keeps 1 2 3000 low_written high_found (omega arith) refl refl (ground arith) high_moves

double_claim_example : Reach 1 2 start (record start {
  low = kept 3000;
  high = kept 3000;
  low_port = some 3000;
  high_port = some 3000;
})
double_claim_example = double_claim 1 2 3000 (omega arith)
