-- ===== src/Deployment/Status/Updates.antt =====
-- Writes to the collection of deployment records, and the numbers that new records get.
use mathlib.Core.Option
use mathlib.Core.List.{Memᴰ}
use mathlib.Core.Path.{subst}
use native.Mathlib.Decide.{ℕ_discrete}
use hello_deploy.Prelude.{
  ℕ, ◌+◌, ◌≤◌, ◌<◌, ◌≡◌, ◌≢◌, refl, Bool, false, not, arith, List, [], ◌∷◌, Bool-cases, leb,
  leb_iff, Option, none, some, if◌then◌else◌, ◌==◌, ◌⊎◌, inl, inr, All, or_else, max,
}
use hello_deploy.Contracts.Enums.{DeploymentStatus, DeploymentStatus-eq}
use hello_deploy.Deployment.Status.{
  Row, update_status, is_terminal, last_sequence, next_sequence_number,
}

-- `findById`: the first record with an id.
unfoldable pub find : ℕ → List Row → Option Row
find id [] = none
find id (r ∷ rs) = if r.id == id then some r else find id rs

-- Ids are unique in a collection.
abbrev pub Fresh : ℕ → List Row → Type 0
Fresh id = All (λ r. r.id ≢ id)

abbrev pub HasUniqueIds : List Row → Type 0
HasUniqueIds [] = Unit
HasUniqueIds (r ∷ rs) = Fresh r.id rs × HasUniqueIds rs

-- What a write of a status may do to one record.
abbrev pub finish : DeploymentStatus → Row → Row
finish to r = if is_terminal r.status then r else record r { status = to }

abbrev pub is_open : Option Row → Bool
is_open none = false
is_open (some r) = not (is_terminal r.status)

module _ (id : ℕ) (to : DeploymentStatus) where
  update_status-Fresh : (rows : List Row) → Fresh id rows → update_status id to rows ≡ (rows, false)
  unfolding update_status
  update_status-Fresh [] h = refl
  update_status-Fresh (r ∷ rs) (p, h) = ground (arith, update_status-Fresh rs h)

  find-Fresh : (rows : List Row) → Fresh id rows → find id rows ≡ none
  unfolding find
  find-Fresh [] h = refl
  find-Fresh (r ∷ rs) (p, h) = ground (arith, find-Fresh rs h)

  update_status_here :
      (j : ℕ) (r : Row) (rs : List Row)
      → Fresh id rs
      → r.id ≡ id
      → (find j (update_status id to (r ∷ rs)).0
          ≡ (if j == id then some (finish to r) else find j (r ∷ rs)))
        × ((update_status id to (r ∷ rs)).1 ≡ not (is_terminal r.status))
  unfolding find update_status
  update_status_here j r rs p e = ground (arith, update_status-Fresh rs p, find-Fresh rs p)

  update_status_there :
      (j : ℕ) (r : Row) (rs : List Row)
      → r.id ≢ id
      → (find j (update_status id to (r ∷ rs)).0
          ≡ (if r.id == j then some r else find j (update_status id to rs).0))
        × ((update_status id to (r ∷ rs)).1 ≡ (update_status id to rs).1)
  unfolding find update_status
  update_status_there j r rs n = ground arith

  -- With unique ids, a status write changes the record with that id and no other, and that one
  -- only if it is not terminal; its result says whether it did.
  pub update_status_effect :
      (j : ℕ) (rows : List Row)
      → HasUniqueIds rows
      → (find j (update_status id to rows).0
          ≡ (if j == id then Option.map (finish to) (find id rows) else find j rows))
        × ((update_status id to rows).1 ≡ is_open (find id rows))
  unfolding find update_status
  update_status_effect j [] h = ground arith
  update_status_effect j (r ∷ rs) (p, h) = elim (ℕ_discrete r.id id) [
    | yes e ↦
        let p' : Fresh id rs = subst (λ i. Fresh i rs) e p in
        ground (arith, update_status_here j r rs p' e, find-Fresh rs p')
    | no n ↦ ground (arith, update_status_effect j rs h)
  ]

  update_status-Fresh_other :
      (j : ℕ) (rows : List Row) → Fresh j rows → Fresh j (update_status id to rows).0
  unfolding update_status
  update_status-Fresh_other j [] h = tt
  update_status-Fresh_other j (r ∷ rs) (p, h) = ground (arith, update_status-Fresh_other j rs h)

  pub update_status-HasUniqueIds :
      (rows : List Row) → HasUniqueIds rows → HasUniqueIds (update_status id to rows).0
  unfolding update_status
  update_status-HasUniqueIds [] h = tt
  update_status-HasUniqueIds (r ∷ rs) (p, h) =
      ground (arith, update_status-HasUniqueIds rs h, update_status-Fresh_other r.id rs p)

last_sequence_bound :
    (project : ℕ) (rows : List Row) (r : Row)
    → Memᴰ r rows
    → r.project_id ≡ project
    → r.sequence_number ≤ or_else (last_sequence project rows) 0
unfolding last_sequence
last_sequence_bound project [] r m p = elim m [ ]
last_sequence_bound project (q ∷ rows) r (Memᴰ.head e) p = ground arith
last_sequence_bound project (q ∷ rows) r (Memᴰ.tail m) p =
    ground (arith, last_sequence_bound project rows r m p)

-- A record of the project has the number `n`.
abbrev pub Numbered : ℕ → List Row → ℕ → Type 0
Numbered project rows n =
    (q : Row) × Memᴰ q rows × (q.project_id ≡ project) × (q.sequence_number ≡ n)

Numbered-tail :
    {project n : ℕ} {q : Row} {rows : List Row}
    → (n ≡ 0) ⊎ Numbered project rows n
    → (n ≡ 0) ⊎ Numbered project (q ∷ rows) n
Numbered-tail (inl z) = inl z
Numbered-tail (inr (r, m, p, e)) = inr (r, Memᴰ.tail m, p, e)

last_sequence_reached :
    (project : ℕ) (rows : List Row)
    → (or_else (last_sequence project rows) 0 ≡ 0)
      ⊎ Numbered project rows (or_else (last_sequence project rows) 0)
unfolding last_sequence
last_sequence_reached project [] = inl refl
last_sequence_reached project (q ∷ rows) = elim (Bool-cases (q.project_id == project)) [
  | inr other ↦ rw other (Numbered-tail (last_sequence_reached project rows))
  | inl own ↦
      rw own (elim (Bool-cases (leb (or_else (last_sequence project rows) 0) q.sequence_number)) [
        | inl le ↦ inr (q, Memᴰ.head refl, ground arith, omega (arith, (leb_iff _ _).0 le))
        | inr gt ↦
            let above : max q.sequence_number (or_else (last_sequence project rows) 0)
                ≡ or_else (last_sequence project rows) 0 =
              ground arith in
            rw above (Numbered-tail (last_sequence_reached project rows))
      ])
]

-- The next sequence number of a project is larger than that of each of its records, and no larger
-- than it has to be: it is 1, or follows the number of one of them.
pub next_sequence_number_fresh :
    (rows : List Row) (project : ℕ) (r : Row)
    → Memᴰ r rows
    → r.project_id ≡ project
    → (r.sequence_number < next_sequence_number rows project)
      × ((next_sequence_number rows project ≡ 1)
          ⊎ ((n : ℕ) × Numbered project rows n × (next_sequence_number rows project ≡ n + 1)))
unfolding next_sequence_number
next_sequence_number_fresh rows project r m p = (
  omega (arith, last_sequence_bound project rows r m p),
  elim (last_sequence_reached project rows) [
    | inl z ↦ inl (omega arith)
    | inr at ↦ inr (or_else (last_sequence project rows) 0, at, refl)
  ],
)
