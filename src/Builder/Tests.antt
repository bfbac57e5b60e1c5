-- ===== src/Builder/Tests.antt =====
-- The builder's controller on a small run.
use hello_deploy.Prelude.{◌≤◌, ◌<◌, ◌≡◌, ◌≢◌, ◌⊎◌, refl, arith, true, none, some, is_some, [], ◌∷◌}
use hello_deploy.Builder.System.{System, begun, after_piece, Step, Reach, answer, here, next}
use hello_deploy.Builder.{building, failed, Request, Build, Call, Task, Answer, begin, resume}
use hello_deploy.Builder.Exclusive.{builds_exclusive}
use hello_deploy.Builder.Halted.{restarted}
use hello_deploy.Builder.Cancelled.{emergency_stop_cancels}
use hello_deploy.Builder.Stale.{granted_build, busy, Reach-busy, stale_check_fails_build}

abbrev request : Request
request = record { deployment_id = 5; project_id = 7; timeout_ms = 600000 }

builds_exclusive_example :
    ((((busy request).held ≡ []) × ((busy request).controller.active_build ≡ none))
      ⊎ ((b : Build) × ((busy request).held ≡ b.lease ∷ [])
          × ((busy request).controller.active_build ≡ some b)))
    × ((building ≢ building) ⊎ (is_some (busy request).controller.active_build ≡ true))
builds_exclusive_example = builds_exclusive (busy request) (Reach-busy request)

-- An Emergency Stop, and then its answer.
abbrev cancelled : System
cancelled =
    after_piece (begin Call.emergency_stop 60 (busy request).controller) (Task.poll 1 90000 ∷ [])
      (0 ∷ [])

abbrev over : System
over =
    after_piece (resume Task.kill_unit Answer.yes 70 cancelled.controller) (Task.poll 1 90000 ∷ [])
      (0 ∷ [])

abbrev killed : Reach cancelled over
unfolding begin resume
killed = next here (answer [] (Task.poll 1 90000 ∷ []) Task.kill_unit Answer.yes 70 refl)

emergency_stop_cancels_example :
    ((over.controller.active_build ≡ none)
      ⊎ ((b : Build) × (over.controller.active_build ≡ some b)
          × ((1 ≤ b.lease) ⊎ (b.is_aborted ≡ true))))
    × ((restarted killed ≡ true) ⊎ (over.controller.next_lease ≡ 1))
emergency_stop_cancels_example = emergency_stop_cancels (busy request) over 60 killed

stale_check_fails_build_example :
    (s t : System) × Reach begun s
    × (s.controller.state ≡ building)
    × (s.controller.active_build ≡ some (granted_build request))
    × (s.tasks ≡ Task.poll 1 90000 ∷ [])
    × (1 < s.controller.start_generation)
    × Step s t
    × (t ≡ after_piece (resume (Task.poll 1 90000) Answer.error 90500 s.controller) [] s.held)
    × (t.controller ≡ record s.controller { state = failed })
stale_check_fails_build_example = stale_check_fails_build request 90500 (omega arith)
