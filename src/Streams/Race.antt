-- ===== src/Streams/Race.antt =====
-- Slots counted in Redis, in apps/web/src/services/sse-limiter.js: with and without a command of
-- another process between a `DECR` and the `DEL` that follows it.
use hello_deploy.Prelude.{ℕ, zero, suc, ◌+◌, ◌≤◌, ◌<◌, ◌≡◌, ◌⊎◌, inl, refl, arith}
use native.Mathlib.Numerals.{unary_clauses}
use hello_deploy.Streams.{
  Slots, no_slots, Step, grant, refuse, give_back, release, release_last, delete, Reach, QuietReach,
}

-- The value of the key is what is held and will be given back, or is about to be deleted.
abbrev IsCounted : ℕ → Slots → Type 0
IsCounted limit s =
    (s.held ≤ limit)
    × (((s.deletions ≡ 0) × (s.incs ≡ s.decs + (s.held + s.over)))
        ⊎ ((s.deletions ≡ 1) × (s.held ≡ 0) × (s.over ≡ 0)))

step-IsCounted :
    {limit : ℕ} {s t : Slots}
    → IsCounted limit s
    → Step limit s t
    → (s.deletions ≡ 0) ⊎ (t.deletions < s.deletions)
    → IsCounted limit t
step-IsCounted {s = s} h (grant le) q = ground arith
step-IsCounted {s = s} h (refuse lt) q = ground arith
step-IsCounted {s = s} h (give_back n e) q = ground arith
step-IsCounted {s = s} h (release n e lt) q = ground arith
step-IsCounted {s = s} h (release_last n e le) q = ground arith
step-IsCounted {s = s} h (delete n e) q = ground arith

reach-IsCounted : {limit : ℕ} {s : Slots} → QuietReach limit no_slots s → IsCounted limit s
reach-IsCounted QuietReach.here = (omega arith, inl (refl, refl))
reach-IsCounted (QuietReach.next r st q) = step-IsCounted (reach-IsCounted r) st q

-- While every `DEL` directly follows its `DECR`, no more streams than the limit have a slot, and
-- either no `DEL` is to come and the key counts exactly those that have a slot and those about to be
-- refused, or one is to come and there are neither.
pub quiet_slots_bounded :
    (limit : ℕ) (s : Slots)
    → QuietReach limit no_slots s
    → (s.held ≤ limit)
      × (((s.deletions ≡ 0) × (s.incs ≡ s.decs + (s.held + s.over)))
          ⊎ ((s.deletions ≡ 1) × (s.held ≡ 0) × (s.over ≡ 0)))
quiet_slots_bounded limit s r = reach-IsCounted r

-- A key that counts `n`, while one more stream has a slot.
abbrev ahead : ℕ → Slots
ahead n = record { incs = n; decs = 0; held = suc n; over = 0; deletions = 0 }

Reach-trans : {limit : ℕ} {s t u : Slots} → Reach limit s t → Reach limit t u → Reach limit s u
Reach-trans r Reach.here = r
Reach-trans r (Reach.next q st) = Reach.next (Reach-trans r q) st

fill : (limit n : ℕ) → n ≤ limit → Reach limit (ahead 0) (ahead n)
fill limit zero h = Reach.here
fill limit (suc n) h =
    let r = Reach.next (fill limit n (omega (arith, h))) (grant (omega (arith, h))) in
    simp unary_clauses at r

lost : (limit : ℕ) → 1 ≤ limit → Reach limit no_slots (ahead 0)
lost limit h =
    Reach.next
      (Reach.next
        (Reach.next (Reach.next Reach.here (grant (omega (arith, h))))
          (release_last 0 refl (omega arith)))
        (grant (omega (arith, h))))
      (delete 0 refl)

-- Where commands may come between a `DECR` and its `DEL`, the limit does not hold: for any limit of at
-- least 1, one more stream than it may have a slot, because the `DEL` of the last release may erase
-- the slot of a stream that was counted after its `DECR`.
pub slots_exceed_limit :
    (limit : ℕ) → 1 ≤ limit → (s : Slots) × Reach limit no_slots s × (limit < s.held)
slots_exceed_limit limit h =
    (ahead limit, Reach-trans (lost limit h) (fill limit limit (omega arith)), omega arith)
