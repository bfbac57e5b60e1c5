-- ===== src/Builder/Stale.antt =====
-- A readiness check that outlives its start, in apps/worker/src/builder/builder-controller.js.
use hello_deploy.Prelude.{ℕ, ◌≤◌, ◌<◌, arith, ◌≡◌, refl, false, leb_iff, some, [], ◌∷◌}
use hello_deploy.Builder.System.{System, begun, after_piece, Step, Reach, call, answer, here, next}
use hello_deploy.Builder.{
  failed, building, Request, Build, Call, Task, Answer, begin_stop, begin, poll_again, resume,
}

-- The build that the request is granted.
abbrev pub granted_build : Request → Build
granted_build r = record { lease = 0; request = r; started_at = 50; is_aborted = false }

abbrev pub busy : Request → System
busy r = record {
  controller = record {
    state = building;
    active_build = some (granted_build r);
    start_generation = 3;
    is_monitoring = false;
    last_activity_at = some 40;
    idle_minutes = 0;
    next_lease = 1;
  };
  tasks = Task.poll 1 90000 ∷ [];
  held = 0 ∷ [];
}

-- A start whose check is slow, a stop, another start, and a build.
pub Reach-busy : (r : Request) → Reach begun (busy r)
unfolding begin resume begin_stop poll_again
Reach-busy r =
    let s1 = next here (call Call.start 0) in
    let s2 = next s1 (answer [] [] Task.start_resources Answer.yes 0 refl) in
    let s3 = next s2 (answer [] [] Task.start_publish Answer.yes 0 refl) in
    let s4 = next s3 (answer [] [] (Task.start_unit 1) Answer.yes 0 refl) in
    let s5 = next s4 (call Call.stop 10) in
    let s6 = next s5 (answer [] (Task.poll 1 90000 ∷ []) Task.stop_unit Answer.yes 20 refl) in
    let s7 = next s6 (call Call.start 30) in
    let s8 = next s7 (answer [] (Task.poll 1 90000 ∷ []) Task.start_resources Answer.yes 30 refl) in
    let s9 = next s8 (answer [] (Task.poll 1 90000 ∷ []) Task.start_publish Answer.yes 30 refl) in
    let s10 = next s9 (answer [] (Task.poll 1 90000 ∷ []) (Task.start_unit 3) Answer.yes 30 refl) in
    let s11 =
      next s10 (answer [] (Task.poll 1 90000 ∷ []) (Task.poll 3 90030) Answer.yes 40 refl) in
    let s12 = next s11 (call (Call.acquire r) 50) in
    let s13 =
      next s12 (answer [] (Task.poll 1 90000 ∷ []) (Task.acquire_verify r) Answer.yes 50 refl) in
    next s13 (answer [] (Task.poll 1 90000 ∷ []) (Task.acquire_resources r) Answer.yes 50 refl)

-- Whatever build is requested, a state is reachable in which it runs, was not cancelled, and a check
-- of an earlier start is waiting; and the one step that answers this check with an error, at or after
-- its deadline, leaves the controller as it was but FAILED.
pub stale_check_fails_build :
    (r : Request) (late : ℕ)
    → 90000 ≤ late
    → (s t : System) × Reach begun s
      × (s.controller.state ≡ building)
      × (s.controller.active_build ≡ some (granted_build r))
      × (s.tasks ≡ Task.poll 1 90000 ∷ [])
      × (1 < s.controller.start_generation)
      × Step s t
      × (t ≡ after_piece (resume (Task.poll 1 90000) Answer.error late s.controller) [] s.held)
      × (t.controller ≡ record s.controller { state = failed })
unfolding resume
stale_check_fails_build r late h =
    let t =
      after_piece (resume (Task.poll 1 90000) Answer.error late (busy r).controller) [] (0 ∷ []) in
    let e = (leb_iff 90000 late).1 h in
    (
      busy r,
      t,
      Reach-busy r,
      refl,
      refl,
      refl,
      omega arith,
      answer [] [] (Task.poll 1 90000) Answer.error late refl,
      refl,
      simp e refl,
    )
