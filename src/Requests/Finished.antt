-- ===== src/Requests/Finished.antt =====
-- Writes of statuses to the collection of deployments: `updateStatus` of
-- apps/worker/src/deployment/pipeline.js, which leaves a finished deployment alone, and the commands
-- that do not ask for the old status. Those of apps/web/src/services/deployment.service.js write FAILED
-- and CANCELLED, those of apps/worker/src/jobs/stop-project.job.js and of `runReleasePipeline`
-- ROLLED_BACK.
use hello_deploy.Prelude.{
  ℕ, ◌⊎◌, inl, inr, ◌==◌, ◌≡◌, refl, ap, ◌∙◌, arith, inl, inr, Bool, true, false, ◌||◌, Bool-cases,
  Option, none, some, List, [], ◌∷◌, All,
}
use hello_deploy.Contracts.Enums.{DeploymentStatus}
use hello_deploy.Deployment.Status.{Row, update_status, is_terminal}
use hello_deploy.Deployment.Status.Updates.{
  find, Fresh, HasUniqueIds, update_status_effect, update_status-HasUniqueIds,
}
use hello_deploy.Requests.{overwrite_status}

-- With the guard of `updateStatus`, and without it.
pub data Write : Type 0 where
  update overwrite : ℕ → DeploymentStatus → Write

abbrev pub write : Write → List Row → List Row
write (update id to) rows = (update_status id to rows).0
write (overwrite id to) rows = overwrite_status id to rows

-- A write without the guard writes a terminal status.
abbrev pub IsFinal : Write → Type 0
IsFinal (update id to) = Unit
IsFinal (overwrite id to) = is_terminal to ≡ true

abbrev pub overwrites : ℕ → Write → Bool
overwrites id (update i to) = false
overwrites id (overwrite i to) = i == id

-- The writes of any number of jobs and requests, in the order in which the database applies them.
unfoldable pub write_all : List Write → List Row → List Row
write_all [] rows = rows
write_all (w ∷ writes) rows = write_all writes (write w rows)

unfoldable pub is_overwritten : ℕ → List Write → Bool
is_overwritten id [] = false
is_overwritten id (w ∷ writes) = overwrites id w || is_overwritten id writes

module _ (i : ℕ) (to : DeploymentStatus) where
  find-overwrite_same :
      (rows : List Row) (r : Row)
      → find i rows ≡ some r
      → find i (overwrite_status i to rows) ≡ some (record r { status = to })
  unfolding find overwrite_status
  find-overwrite_same [] r f = cc
  find-overwrite_same (x ∷ rows) r f = elim (Bool-cases (x.id == i)) [
    | inl e ↦
        let same : some x ≡ some r = rw e at f in
        simp e (
          ap
            (λ (o : Option Row). elim o [
              | none ↦ some (record x { status = to })
              | some y ↦ some (record y { status = to })
            ])
            same)
    | inr n ↦
        let later : find i rows ≡ some r = rw n at f in simp n (find-overwrite_same rows r later)
  ]

  find-overwrite_other :
      (rows : List Row) (id : ℕ)
      → (i == id) ≡ false
      → find id (overwrite_status i to rows) ≡ find id rows
  unfolding find overwrite_status
  find-overwrite_other [] id n = refl
  find-overwrite_other (x ∷ rows) id n = ground (arith, find-overwrite_other rows id n)

  overwrite_status-Fresh :
      (j : ℕ) (rows : List Row) → Fresh j rows → Fresh j (overwrite_status i to rows)
  unfolding overwrite_status
  overwrite_status-Fresh j [] h = tt
  overwrite_status-Fresh j (x ∷ rows) (p, h) = ground (arith, overwrite_status-Fresh j rows h)

  overwrite_status-HasUniqueIds :
      (rows : List Row) → HasUniqueIds rows → HasUniqueIds (overwrite_status i to rows)
  unfolding overwrite_status
  overwrite_status-HasUniqueIds [] h = tt
  overwrite_status-HasUniqueIds (x ∷ rows) (p, h) =
      ground (arith, overwrite_status-HasUniqueIds rows h, overwrite_status-Fresh x.id rows p)

write-HasUniqueIds : (w : Write) (rows : List Row) → HasUniqueIds rows → HasUniqueIds (write w rows)
write-HasUniqueIds (update i to) rows u = update_status-HasUniqueIds i to rows u
write-HasUniqueIds (overwrite i to) rows u = overwrite_status-HasUniqueIds i to rows u

-- What one write leaves of a finished record.
abbrev Stays : ℕ → Row → Bool → List Row → Type 0
Stays id r is_written rows =
    (r' : Row) × (find id rows ≡ some r')
    × (is_terminal r'.status ≡ true)
    × (is_written ≡ false → r' ≡ r)

write-Stays :
    (w : Write) (rows : List Row) (id : ℕ) (r : Row)
    → HasUniqueIds rows
    → find id rows ≡ some r
    → is_terminal r.status ≡ true
    → IsFinal w
    → Stays id r (overwrites id w) (write w rows)
write-Stays (update i to) rows id r u f t final = (r, still, t, λ _. refl)
  where
    same : (id == i) ≡ true → find i rows ≡ some r
    same e = let e' : id ≡ i = ground arith in rw (← e') f

    still : find id (update_status i to rows).0 ≡ some r
    still = ground (arith, (update_status_effect i to id rows u).0, same)
write-Stays (overwrite i to) rows id r u f t final = elim (Bool-cases (i == id)) [
  | inl e ↦
      let q : i ≡ id = ground arith in
      let h : find i rows ≡ some r = rw q f in
      let g : find id (overwrite_status i to rows) ≡ some (record r { status = to }) =
        rw (← q) (find-overwrite_same i to rows r h) in
      (record r { status = to }, g, final, λ n. absurd (ground (arith, e, n)))
  | inr n ↦ (r, find-overwrite_other i to rows id n ∙ f, t, λ _. refl)
]

write_all-Stays :
    (writes : List Write) (rows : List Row) (id : ℕ) (r : Row)
    → HasUniqueIds rows
    → find id rows ≡ some r
    → is_terminal r.status ≡ true
    → All IsFinal writes
    → Stays id r (is_overwritten id writes) (write_all writes rows)
unfolding write_all is_overwritten
write_all-Stays [] rows id r u f t final = (r, f, t, λ _. refl)
write_all-Stays (w ∷ writes) rows id r u f t (p, final) =
    let (x, g, k, same) = write-Stays w rows id r u f t p in
    let (y, h, l, again) =
      write_all-Stays writes (write w rows) id x (write-HasUniqueIds w rows u) g k final in
    (y, h, l, λ n. again (ground (arith, n)) ∙ same (ground (arith, n)))

-- Whatever writes of statuses follow, to any records, those without the guard with terminal statuses
-- only: a terminal record stays terminal, and as it was if none of the latter is to it.
pub terminal_stays_terminal :
    (writes : List Write) (rows : List Row) (id : ℕ) (r : Row)
    → HasUniqueIds rows
    → find id rows ≡ some r
    → is_terminal r.status ≡ true
    → All IsFinal writes
    → (r' : Row) × (find id (write_all writes rows) ≡ some r')
      × (is_terminal r'.status ≡ true)
      × ((is_overwritten id writes ≡ true) ⊎ (r' ≡ r))
terminal_stays_terminal writes rows id r u f t final =
    let (x, g, k, same) = write_all-Stays writes rows id r u f t final in
    (
      x,
      g,
      k,
      elim (Bool-cases (is_overwritten id writes)) [
        | inl written ↦ inl written
        | inr untouched ↦ inr (same untouched)
      ],
    )
