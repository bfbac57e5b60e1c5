-- ===== src/Requests/Race.antt =====
-- Two requests of apps/web/src/services/deployment.service.js whose checks and writes interleave, and a
-- cancellation whose write comes after the worker's.
use hello_deploy.Prelude.{
  ℕ, ◌≡◌, refl, ◌∙◌, ap, arith, true, ◌&&◌, ◌==◌, beq_refl, none, some, is_some, List, [], ◌∷◌,
  ◌++◌, ℕ_eq,
}
use hello_deploy.Contracts.Enums.{DeploymentStatus, healthy, cancelled}
use hello_deploy.Deployment.Status.{Row, is_active, is_terminal, update_status}
use hello_deploy.Deployment.Status.Updates.{find, HasUniqueIds, update_status_effect}
use hello_deploy.Requests.{
  Plan, new_row, find_in_flight, find_of, overwrite_status, check_cancel, after_check, require,
}
use hello_deploy.Requests.InFlight.{count_in_flight, one, count-append, count-find_in_flight}

-- Requests that have passed their last check and have not yet created their record.
pub record System : Type 0 where
  pub rows : List Row
  pub waiting : List Plan

-- `findInFlightDeployment` finds nothing; and `nextSequenceNumber` with `Deployment.create`.
pub data Step (s : System) : System → Type 0 where
  check :
      (plan : Plan)
      → find_in_flight plan.project_id s.rows ≡ none
      → Step s (record s { waiting = plan ∷ s.waiting })
  insert :
      (before after : List Plan) (plan : Plan) (id : ℕ)
      → s.waiting ≡ before ++ plan ∷ after
      → Step s (record { rows = s.rows ++ new_row id plan s.rows ∷ []; waiting = before ++ after })

pub data Reach (s : System) : System → Type 0 where
  here : Reach s s
  next : {t u : System} → Reach s t → Step t u → Reach s u

two_more :
    (rows : List Row) (p : Plan) (id id' : ℕ)
    → is_active p.status ≡ true
    → find_in_flight p.project_id rows ≡ none
    → (let once = rows ++ new_row id p rows ∷ [] in
        count_in_flight p.project_id (once ++ new_row id' p once ∷ []) ≡ 2)
two_more rows p id id' a free =
    let once = rows ++ new_row id p rows ∷ [] in
    let zero = count-find_in_flight p.project_id rows (ap is_some free) in
    let first = count-append p.project_id rows (new_row id p rows) in
    let second = count-append p.project_id once (new_row id' p once) in
    let counts = one_when p.project_id p.status a in omega (arith, zero, first, second, counts)
  where
    one_when :
        (project : ℕ) (status : DeploymentStatus)
        → is_active status ≡ true
        → one (project == project && is_active status) ≡ 1
    one_when project status e = rw (e, beq_refl {A = ℕ} project) refl

-- For any project with nothing in flight and any plan for it that is in flight when created, two
-- requests that both check before either creates its record end with two deployments in flight.
pub two_in_flight :
    (rows : List Row) (p : Plan) (id id' : ℕ)
    → is_active p.status ≡ true
    → find_in_flight p.project_id rows ≡ none
    → (t : System) × Reach (record { rows = rows; waiting = [] }) t
      × (count_in_flight p.project_id t.rows ≡ 2)
two_in_flight rows p id id' a free = (
  _,
  next (next (next (next here (check p free)) (check p free)) (insert [] (p ∷ []) p id refl))
      (insert [] [] p id' refl),
  two_more rows p id id' a free,
)

find_of-find :
    (id project : ℕ) (rows : List Row) (r : Row)
    → find id rows ≡ some r
    → r.project_id ≡ project
    → find_of id project rows ≡ some r
unfolding find find_of
find_of-find id project [] r h e = cc
find_of-find id project (x ∷ rows) r h e = ground (arith, find_of-find id project rows r, h, e)

find-overwrite_status :
    (id : ℕ) (to : DeploymentStatus) (rows : List Row) (r : Row)
    → find id rows ≡ some r
    → find id (overwrite_status id to rows) ≡ some (record r { status = to })
unfolding find overwrite_status
find-overwrite_status id to [] r h = cc
find-overwrite_status id to (x ∷ rows) r h = ground (arith, find-overwrite_status id to rows r, h)

worker_finishes :
    (id : ℕ) (rows : List Row) (r : Row)
    → HasUniqueIds rows
    → find id rows ≡ some r
    → is_active r.status ≡ true
    → ((update_status id healthy rows).1 ≡ true)
      × (find id (update_status id healthy rows).0 ≡ some (record r { status = healthy }))
unfolding is_active is_terminal
worker_finishes id rows r u h a =
    let (e, f) = update_status_effect id healthy id rows u in
    (f ∙ ground (arith, h, a), e ∙ ground (arith, h, a))

-- A cancellation that reads a deployment in flight and writes after the worker has set it to HEALTHY
-- turns the HEALTHY record into a CANCELLED one.
pub late_cancel_overwrites :
    (id project : ℕ) (rows : List Row) (r : Row)
    → HasUniqueIds rows
    → find id rows ≡ some r
    → r.project_id ≡ project
    → is_active r.status ≡ true
    → (let worked = update_status id healthy rows in
        (worked.1 ≡ true)
        × (find id worked.0 ≡ some (record r { status = healthy }))
        × (find id (after_check (check_cancel (find_of id project rows)) id worked.0)
            ≡ some (record r { status = cancelled })))
unfolding check_cancel
late_cancel_overwrites id project rows r u h e a =
    let (w, f) = worker_finishes id rows r u h a in
    (
      w,
      f,
      rw (find_of-find id project rows r h e, check_cancel)
          (rw (a, require)
            (find-overwrite_status id cancelled _ (record r { status = healthy }) f)),
    )
