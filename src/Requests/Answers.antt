-- ===== src/Requests/Answers.antt =====
-- What the answers of apps/web/src/services/deployment.service.js say about the collection.
use hello_deploy.Prelude.{ℕ, refl, Bool, true, false, Option, List, [], ◌∷◌, ◌++◌, Text}
use hello_deploy.Contracts.Enums.{failed}
use hello_deploy.Deployment.Status.{Row}
use hello_deploy.Requests.Readiness.{Refusal, queue_unavailable}
use hello_deploy.Requests.Passing.{Passes, Passes_inv}
use hello_deploy.Requests.Checks.{
  Creatable, Restorable, Retryable, check_create-Creatable, check_retry-Retryable,
  check_rollback-Restorable,
}
use hello_deploy.Requests.{
  Checked, passed, refused, Surroundings, Original, Target, Plan, new_row, launch,
  create_deployment, retry_deployment, rollback_deployment,
}

-- What is answered and what the collection is afterwards: the record of a plan that the checks `P`
-- passed on; a refusal that changes nothing; or, without a queue, a refusal and a FAILED record.
pub data Answers (P : Plan → Type 0) (id : ℕ) (rows : List Row)
    : Bool → Checked Row × List Row → Type 0 where
  created :
      (plan : Plan)
      → P plan
      → Answers P id rows true (passed (new_row id plan rows), rows ++ new_row id plan rows ∷ [])
  unchanged : {has_queue : Bool} (x : Refusal) → Answers P id rows has_queue (refused x, rows)
  left_failed :
      (plan : Plan)
      → P plan
      → Answers P id rows false (
        refused queue_unavailable,
        rows ++ record (new_row id plan rows) { status = failed } ∷ [],
      )

launch-Answers :
    {P : Plan → Type 0} (has_queue : Bool) (id : ℕ) (rows : List Row) (c : Checked Plan)
    → Passes P c
    → Answers P id rows has_queue (launch has_queue id c rows)
unfolding launch
launch-Answers has_queue id rows (refused x) h = Answers.unchanged x
launch-Answers true id rows (passed plan) h =
    Answers.created plan (Passes_inv (passed plan) plan h refl)
launch-Answers false id rows (passed plan) h =
    Answers.left_failed plan (Passes_inv (passed plan) plan h refl)

-- Every request to create, to retry and to roll back ends in one of three ways: with the record of a
-- plan of which all its checks hold, added at the end of the collection; with a refusal and the
-- collection as it was; or, where there is no queue, with a refusal and the record of such a plan
-- added as FAILED.
pub every_request_answers :
    (w : Surroundings) (commit : Option Text) (latest : Bool) (original : Option Original)
    (target : Option Target) (id : ℕ) (rows : List Row)
    → Answers (Creatable w commit rows) id rows w.has_queue (create_deployment w commit id rows)
      × Answers
          (Retryable w latest original rows)
          id
          rows
          w.has_queue
          (retry_deployment w latest original id rows)
      × Answers
          (Restorable w target rows)
          id
          rows
          w.has_queue
          (rollback_deployment w target id rows)
unfolding create_deployment retry_deployment rollback_deployment
every_request_answers w commit latest original target id rows = (
  launch-Answers w.has_queue id rows _ (check_create-Creatable w commit rows),
  launch-Answers w.has_queue id rows _ (check_retry-Retryable w latest original rows),
  launch-Answers w.has_queue id rows _ (check_rollback-Restorable w target rows),
)
