-- ===== src/Requests/InFlight.antt =====
-- How many deployments of a project are in flight while the requests of
-- apps/web/src/services/deployment.service.js and the worker's writes follow one another.
use hello_deploy.Prelude.{
  ℕ, ◌+◌, ◌≤◌, ◌≡◌, refl, sym, ◌∙◌, ap, arith, Bool, true, false, ◌&&◌, not, ◌==◌, ==_iff,
  and-eq-true, Bool-cases, inl, inr, ◌⊎◌, Option, is_some, List, [], ◌∷◌, ◌++◌, Text,
}
use hello_deploy.Contracts.Enums.{DeploymentStatus, cancelled, failed}
use hello_deploy.Deployment.Status.{Row, is_active, is_terminal, update_status}
use hello_deploy.Requests.Passing.{Passes}
use hello_deploy.Requests.Checks.{
  check_create-Creatable, check_retry-Retryable, check_rollback-Restorable,
}
use hello_deploy.Requests.{
  Checked, passed, refused, Surroundings, Original, Target, Plan, new_row, launch, find_in_flight,
  overwrite_status, create_deployment, retry_deployment, rollback_deployment, cancel_deployment,
  find_of, check_cancel, after_check,
}

abbrev pub one : Bool → ℕ
one true = 1
one false = 0

unfoldable pub count_in_flight : ℕ → List Row → ℕ
count_in_flight project [] = 0
count_in_flight project (r ∷ rows) =
    one (r.project_id == project && is_active r.status) + count_in_flight project rows

abbrev pub OneInFlight : List Row → Type 0
OneInFlight rows = (project : ℕ) → count_in_flight project rows ≤ 1

module _ (p : ℕ) where
  pub count-append :
      (rows : List Row) (r : Row)
      → count_in_flight p (rows ++ r ∷ [])
        ≡ count_in_flight p rows + one (r.project_id == p && is_active r.status)
  unfolding count_in_flight
  count-append [] r = omega arith
  count-append (x ∷ rows) r = omega (arith, count-append rows r)

  pub count-find_in_flight :
      (rows : List Row) → is_some (find_in_flight p rows) ≡ false → count_in_flight p rows ≡ 0
  unfolding count_in_flight find_in_flight
  count-find_in_flight [] h = refl
  count-find_in_flight (r ∷ rows) h = ground (arith, count-find_in_flight rows)

  count-overwrite_status :
      (id : ℕ) (rows : List Row)
      → count_in_flight p (overwrite_status id cancelled rows) ≤ count_in_flight p rows
  unfolding count_in_flight overwrite_status is_active
  count-overwrite_status id [] = omega arith
  count-overwrite_status id (r ∷ rows) = elim (Bool-cases (r.id == id)) [
    | inl e ↦ rw e (ground arith)
    | inr e ↦ rw e (omega (arith, count-overwrite_status id rows))
  ]

  active_unless_terminal :
      (r : Row) (to : DeploymentStatus)
      → not (is_terminal r.status) ≡ true
      → one (r.project_id == p && is_active to) ≤ one (r.project_id == p && is_active r.status)
  unfolding is_active is_terminal
  active_unless_terminal r to h = ground arith

  count-update_status :
      (id : ℕ) (to : DeploymentStatus) (rows : List Row)
      → count_in_flight p (update_status id to rows).0 ≤ count_in_flight p rows
  unfolding count_in_flight update_status
  count-update_status id to [] = omega arith
  count-update_status id to (r ∷ rows) =
      elim (Bool-cases (r.id == id && not (is_terminal r.status))) [
        | inl e ↦
            rw e (omega (arith, active_unless_terminal r to ((and-eq-true (r.id == id) _ e).1)))
        | inr e ↦ rw e (omega (arith, count-update_status id to rows))
      ]

  count_single : (b : Bool) → one b ≤ 1
  count_single true = omega arith
  count_single false = omega arith

  -- A plan whose project has nothing in flight.
  launch-count :
      (has_queue : Bool) (id : ℕ) (c : Checked Plan) (rows : List Row)
      → Passes (λ plan. is_some (find_in_flight plan.project_id rows) ≡ false) c
      → count_in_flight p rows ≤ 1
      → count_in_flight p (launch has_queue id c rows).1 ≤ 1
  unfolding launch is_active
  launch-count has_queue id (refused r) rows h k = k
  launch-count true id (passed plan) rows (Passes.passes free) k =
      rw (count-append rows (new_row id plan rows)) (new_alone (Bool-cases (plan.project_id == p)))
    where
      new_alone :
          ((plan.project_id == p) ≡ true) ⊎ ((plan.project_id == p) ≡ false)
          → count_in_flight p rows + one (plan.project_id == p && is_active plan.status) ≤ 1
      new_alone (inl e) =
          let q = (==_iff plan.project_id p).0 e in
          let none_yet =
            count-find_in_flight rows (ap (λ x. is_some (find_in_flight x rows)) (sym q) ∙ free) in
          omega (arith, none_yet, count_single (plan.project_id == p && is_active plan.status))
      new_alone (inr e) = rw e (omega (arith, k))
  launch-count false id (passed plan) rows h k =
      rw (count-append rows (record (new_row id plan rows) { status = failed })) (ground (arith, k))

-- One request, or a write of the worker, at a time. A request's surroundings and the new id are its
-- own.
pub data Event : Type 0 where
  create : Surroundings → Option Text → ℕ → Event
  retry : Surroundings → Bool → Option Original → ℕ → Event
  roll_back : Surroundings → Option Target → ℕ → Event
  cancel : ℕ → ℕ → Event
  work : ℕ → DeploymentStatus → Event

abbrev pub on_event : Event → List Row → List Row
on_event (create w commit id) rows = (create_deployment w commit id rows).1
on_event (retry w latest original id) rows = (retry_deployment w latest original id rows).1
on_event (roll_back w target id) rows = (rollback_deployment w target id rows).1
on_event (cancel id project) rows = (cancel_deployment id project rows).1
on_event (work id to) rows = (update_status id to rows).0

unfoldable pub on_events : List Event → List Row → List Row
on_events [] rows = rows
on_events (v ∷ vs) rows = on_events vs (on_event v rows)

count-cancel_deployment :
    (p id project : ℕ) (rows : List Row)
    → count_in_flight p (cancel_deployment id project rows).1 ≤ count_in_flight p rows
unfolding cancel_deployment
count-cancel_deployment p id project rows = checked (check_cancel (find_of id project rows))
  where
    checked :
        (c : Checked (Unit {0}))
        → count_in_flight p (after_check c id rows) ≤ count_in_flight p rows
    checked (passed _) = count-overwrite_status p id rows
    checked (refused r) = omega arith

weaken :
    {P Q : Plan → Type 0} {c : Checked Plan}
    → ((plan : Plan) → P plan → Q plan)
    → Passes P c
    → Passes Q c
weaken f (Passes.passes {a} h) = Passes.passes (f a h)
weaken f Passes.stops = Passes.stops

on_event-OneInFlight :
    (v : Event) (rows : List Row) → OneInFlight rows → OneInFlight (on_event v rows)
unfolding create_deployment retry_deployment rollback_deployment
on_event-OneInFlight (create w commit id) rows h p =
    launch-count p w.has_queue id _ rows
      (weaken (λ plan c. c.free) (check_create-Creatable w commit rows)) (h p)
on_event-OneInFlight (retry w latest original id) rows h p =
    launch-count p w.has_queue id _ rows
      (weaken (λ plan c. c.free) (check_retry-Retryable w latest original rows)) (h p)
on_event-OneInFlight (roll_back w target id) rows h p =
    launch-count p w.has_queue id _ rows
      (weaken (λ plan c. c.free) (check_rollback-Restorable w target rows)) (h p)
on_event-OneInFlight (cancel id project) rows h p =
    omega (arith, count-cancel_deployment p id project rows, h p)
on_event-OneInFlight (work id to) rows h p = omega (arith, count-update_status p id to rows, h p)

-- Where no project has two deployments in flight, none has two after any sequence of requests to
-- create, retry, roll back and cancel and of writes of the worker, each of which runs as a whole.
pub one_in_flight :
    (vs : List Event) (rows : List Row) → OneInFlight rows → OneInFlight (on_events vs rows)
unfolding on_events
one_in_flight [] rows h = h
one_in_flight (v ∷ vs) rows h = one_in_flight vs (on_event v rows) (on_event-OneInFlight v rows h)
