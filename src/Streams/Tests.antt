-- ===== src/Streams/Tests.antt =====
-- Stream slots on small inputs.
use hello_deploy.Prelude.{
  ℕ, ◌+◌, ◌≤◌, ◌<◌, ◌≡◌, ◌↔◌, ◌⊎◌, inl, refl, arith, true, if◌then◌else◌, List, [], ◌∷◌, String,
  string_eq,
}
use hello_deploy.Streams.{
  Slots, no_slots, grant, QuietReach, Reach, count_of, memory_acquire, memory_release,
}
use hello_deploy.Streams.Memory.{memory_slots}
use hello_deploy.Streams.Race.{quiet_slots_bounded, slots_exceed_limit}

abbrev counts : List (String × ℕ)
counts = ("sse:user:1", 2) ∷ []

memory_slots_example :
    (((memory_acquire "sse:user:1" 3 counts).0 ≡ true) ↔ (count_of "sse:user:1" counts < 3))
    × (count_of "sse:user:2" (memory_acquire "sse:user:1" 3 counts).1 ≡ (
        if (memory_acquire "sse:user:1" 3 counts).0
        then count_of "sse:user:2" counts
        else count_of "sse:user:2" counts))
    × (count_of "sse:user:2" (
          if (memory_acquire "sse:user:1" 3 counts).0
          then memory_release "sse:user:1" (memory_acquire "sse:user:1" 3 counts).1
          else (memory_acquire "sse:user:1" 3 counts).1)
        ≡ count_of "sse:user:2" counts)
memory_slots_example = memory_slots "sse:user:1" "sse:user:2" 3 counts

abbrev one_slot : Slots
one_slot = record { incs = 1; decs = 0; held = 1; over = 0; deletions = 0 }

one_granted : QuietReach 1 no_slots one_slot
one_granted = QuietReach.next QuietReach.here (grant (omega arith)) (inl refl)

quiet_slots_bounded_example :
    (one_slot.held ≤ 1)
    × (((one_slot.deletions ≡ 0)
          × (one_slot.incs ≡ one_slot.decs + (one_slot.held + one_slot.over)))
        ⊎ ((one_slot.deletions ≡ 1) × (one_slot.held ≡ 0) × (one_slot.over ≡ 0)))
quiet_slots_bounded_example = quiet_slots_bounded 1 one_slot one_granted

slots_exceed_limit_example : (s : Slots) × Reach 2 no_slots s × (2 < s.held)
slots_exceed_limit_example = slots_exceed_limit 2 (omega arith)
