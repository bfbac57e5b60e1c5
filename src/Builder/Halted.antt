-- ===== src/Builder/Halted.antt =====
-- What may be granted after an Emergency Stop, in apps/worker/src/builder/builder-controller.js.
use hello_deploy.Prelude.{
  ℕ, ◌+◌, ◌≡◌, arith, ◌⊎◌, inl, inr, Bool, true, false, ◌&&◌, ◌||◌, not, ◌==◌, Bool-cases,
  if◌then◌else◌,
}
use hello_deploy.Builder.System.{System, Step, Reach, call, answer, here, next}
use hello_deploy.Builder.{
  starting, ready, building, start_timeout_ms, Controller, Call, Task, Answer, Piece, is_state,
  done, await, begin_stop, begin, poll_again, is_idle, idle_check, after_settings, resume,
}

-- The answers after which the service may become ready: a start's resources suffice, or, as the
-- worker begins, the service that runs is verified.
abbrev pub restarts : Task → Answer → Bool
restarts Task.start_resources Answer.yes = true
restarts Task.reconcile_verify Answer.yes = true
restarts _ _ = false

abbrev pub step_restarts : {s t : System} → Step s t → Bool
step_restarts (call k now) = false
step_restarts (answer before after t a now e) = restarts t a

unfoldable pub restarted : {s t : System} → Reach s t → Bool
restarted here = false
restarted (next r st) = step_restarts st || restarted r

module _ (lease : ℕ) where
  -- The service neither is up nor starts, and the next lease is `lease`.
  abbrev pub is_down : Controller → Bool
  is_down c =
      not (is_state c.state starting)
      && not (is_state c.state ready)
      && not (is_state c.state building)
      && c.next_lease == lease

  abbrev pub IsDown : Controller → Type 0
  IsDown c = is_down c ≡ true

  module _ (c : Controller) (h : IsDown c) where
    begin_stop-IsDown : IsDown (begin_stop c).controller
    unfolding begin_stop
    begin_stop-IsDown = ground arith

    poll_again-IsDown : (g deadline : ℕ) → IsDown (poll_again g deadline c).controller
    unfolding poll_again
    poll_again-IsDown g deadline = ground arith

  either :
      (b : Bool) (p q : Piece)
      → IsDown p.controller
      → IsDown q.controller
      → IsDown (if b then p else q).controller
  either true p q x y = x
  either false p q x y = y

  idle_check-IsDown : (now : ℕ) (c : Controller) → IsDown c → IsDown (idle_check now c).controller
  unfolding idle_check
  idle_check-IsDown now c h =
      either (is_idle now c) (begin_stop c) (done c) (begin_stop-IsDown c h) h

  after_settings-IsDown :
      (now : ℕ) (c : Controller) → IsDown c → IsDown (after_settings now c).controller
  after_settings-IsDown now c h =
      either (is_state c.state ready || is_state c.state building) (await Task.tick_unit c)
        (idle_check now c) h (idle_check-IsDown now c h)

  resume-IsDown :
      (t : Task) (a : Answer) (now : ℕ) (c : Controller)
      → restarts t a ≡ false
      → IsDown c
      → IsDown (resume t a now c).controller
  unfolding resume
  resume-IsDown (Task.start_unit g) Answer.yes now c n h =
      poll_again-IsDown c h g (now + start_timeout_ms)
  resume-IsDown (Task.sleep g deadline) a now c n h = poll_again-IsDown c h g deadline
  resume-IsDown (Task.acquire_resources r) a now c n h = ground arith
  resume-IsDown Task.tick_settings (Answer.minutes m) now c n h =
      after_settings-IsDown now (record c { idle_minutes = m }) h
  resume-IsDown Task.tick_settings _ now c n h = after_settings-IsDown now c h
  resume-IsDown Task.tick_unit Answer.yes now c n h = idle_check-IsDown now c h
  resume-IsDown Task.tick_idle a now c n h = idle_check-IsDown now c h
  resume-IsDown _ a now c n h = ground arith

  begin-IsDown :
      (k : Call) (now : ℕ) (c : Controller) → IsDown c → IsDown (begin k now c).controller
  unfolding begin
  begin-IsDown Call.stop now c h = begin_stop-IsDown c h
  begin-IsDown _ now c h = ground arith

  step-IsDown :
      {s t : System} (st : Step s t)
      → step_restarts st ≡ false
      → IsDown s.controller
      → IsDown t.controller
  step-IsDown {s} (call k now) n h = begin-IsDown k now s.controller h
  step-IsDown {s} (answer before after t a now e) n h = resume-IsDown t a now s.controller n h

  pub Reach-IsDown :
      {s t : System} (r : Reach s t)
      → IsDown s.controller
      → (restarted r ≡ true) ⊎ IsDown t.controller
  unfolding restarted
  Reach-IsDown here h = inr h
  Reach-IsDown (next r st) h = elim (Reach-IsDown r h) [
    | inl again ↦ inl (ground (arith, again))
    | inr down ↦ elim (Bool-cases (step_restarts st)) [
      | inl again ↦ inl (ground (arith, again))
      | inr quiet ↦ inr (step-IsDown st quiet down)
    ]
  ]
