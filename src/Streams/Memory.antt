-- ===== src/Streams/Memory.antt =====
-- Slots counted in the process, in apps/web/src/services/sse-limiter.js.
use hello_deploy.Prelude.{
  ℕ, ◌+◌, ◌-◌, ◌<◌, ◌≡◌, ◌↔◌, refl, arith, true, leb, ◌=?◌, if◌then◌else◌, List, String, string_eq,
  beq_refl, Bool-cases, inl, inr,
}
use hello_deploy.Prelude.Assoc.{insert, lookup-insert, lookup-remove}
use hello_deploy.Streams.{count_of, memory_acquire, memory_release}

count_of-memory_release :
    (key other : String) (n : ℕ) (counts : List (String × ℕ))
    → count_of key counts ≡ n
    → count_of other (memory_release key (insert key (n + 1) counts)) ≡ count_of other counts
unfolding memory_release
count_of-memory_release key other n counts h =
    let taken = insert key (n + 1) counts in
    ground (
      arith,
      lookup-insert key key (n + 1) counts,
      lookup-insert key other (n + 1) counts,
      lookup-remove key other taken,
      lookup-insert key other ((n + 1) - 1) taken,
      beq_refl key,
      string_eq.beq_iff key other,
    )

count_of-insert :
    (key other : String) (n : ℕ) (counts : List (String × ℕ))
    → count_of other (insert key n counts) ≡ (if key =? other then n else count_of other counts)
count_of-insert key other n counts = ground (arith, lookup-insert key other n counts)

-- A slot is given exactly when the key has fewer than the limit, and then one is counted for that
-- key and no other; releasing it afterwards leaves every key with the count that it had before.
pub memory_slots :
    (key other : String) (limit : ℕ) (counts : List (String × ℕ))
    → (((memory_acquire key limit counts).0 ≡ true) ↔ (count_of key counts < limit))
      × (count_of other (memory_acquire key limit counts).1 ≡ (
          if (memory_acquire key limit counts).0
          then (if key =? other then count_of key counts + 1 else count_of other counts)
          else count_of other counts))
      × (count_of other (
            if (memory_acquire key limit counts).0
            then memory_release key (memory_acquire key limit counts).1
            else (memory_acquire key limit counts).1)
          ≡ count_of other counts)
unfolding memory_acquire
memory_slots key other limit counts =
    let n = count_of key counts in
    elim (Bool-cases (leb limit n)) [
      | inl e ↦ rw e (ground arith, refl, refl)
      | inr e ↦ rw e (
        ground arith,
        count_of-insert key other (n + 1) counts,
        count_of-memory_release key other n counts refl,
      )
    ]
