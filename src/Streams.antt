-- ===== src/Streams.antt =====
-- apps/web/src/services/sse-limiter.js: how many event streams a key may have open at once, counted
-- in the process (memory_acquire and memory_release) or in Redis, which is read and written by
-- several processes, one command at a time (Step). A key's expiry in Redis is not modelled: it is
-- longer than a stream may last.
pub mod Memory
pub mod Race
mod Tests
use hello_deploy.Prelude.{
  ℕ, suc, ◌+◌, ◌-◌, ◌≤◌, ◌<◌, ◌≡◌, ◌⊎◌, Bool, true, false, leb, if◌then◌else◌, Option, List,
  or_else, String, string_eq,
}
use hello_deploy.Prelude.Assoc.{lookup, insert, remove}

abbrev pub count_of : String → List (String × ℕ) → ℕ
count_of key counts = or_else (lookup key counts) 0

unfoldable pub memory_acquire : String → ℕ → List (String × ℕ) → Bool × List (String × ℕ)
memory_acquire key limit counts =
    let current = count_of key counts in
    if leb limit current then (false, counts) else (true, insert key (current + 1) counts)

unfoldable pub memory_release : String → List (String × ℕ) → List (String × ℕ)
memory_release key counts =
    let current = count_of key counts in
    if leb current 1 then remove key counts else insert key (current - 1) counts

-- A key in Redis: its value is `incs` less `decs`, which may be negative, and `DEL` makes it 0. Of
-- the streams, `held` have a slot, `over` have been counted and will be refused, and `deletions`
-- releases have still to send their `DEL`.
pub record Slots : Type 0 where
  pub incs : ℕ
  pub decs : ℕ
  pub held : ℕ
  pub over : ℕ
  pub deletions : ℕ

abbrev pub no_slots : Slots
no_slots = record { incs = 0; decs = 0; held = 0; over = 0; deletions = 0 }

-- The commands of `acquireStreamSlot` and `releaseStreamSlot`, each with what its caller then does.
pub data Step (limit : ℕ) (s : Slots) : Slots → Type 0 where
  -- `INCR` answers no more than the limit
  grant :
      s.incs + 1 ≤ limit + s.decs → Step limit s (record s { incs = s.incs + 1; held = s.held + 1 })
  -- `INCR` answers more than the limit, and its `DECR` follows
  refuse :
      limit + s.decs < s.incs + 1 → Step limit s (record s { incs = s.incs + 1; over = s.over + 1 })
  give_back : (n : ℕ) → s.over ≡ n + 1 → Step limit s (record s { decs = s.decs + 1; over = n })
  -- `DECR` answers more than 0
  release :
      (n : ℕ)
      → s.held ≡ n + 1
      → s.decs + 1 < s.incs
      → Step limit s (record s { decs = s.decs + 1; held = n })
  -- `DECR` answers 0 or less, and its `DEL` follows
  release_last :
      (n : ℕ)
      → s.held ≡ n + 1
      → s.incs ≤ s.decs + 1
      → Step limit s (record s { decs = s.decs + 1; held = n; deletions = s.deletions + 1 })
  delete :
      (n : ℕ) → s.deletions ≡ n + 1 → Step limit s (record s { incs = 0; decs = 0; deletions = n })

pub data Reach (limit : ℕ) (s : Slots) : Slots → Type 0 where
  here : Reach limit s s
  next : {t u : Slots} → Reach limit s t → Step limit t u → Reach limit s u

-- Only runs in which a `DEL` directly follows its `DECR`.
pub data QuietReach (limit : ℕ) (s : Slots) : Slots → Type 0 where
  here : QuietReach limit s s
  next :
      {t u : Slots}
      → QuietReach limit s t
      → Step limit t u
      → (t.deletions ≡ 0) ⊎ (u.deletions < t.deletions)
      → QuietReach limit s u
