-- ===== src/Builder/Cancelled.antt =====
-- What becomes of a cancelled build, in apps/worker/src/builder/builder-controller.js.
use hello_deploy.Prelude.{
  ℕ, ◌+◌, ◌≤◌, ◌<◌, Bool-cases, Option-cases, ◌≡◌, refl, arith, ◌⊎◌, inl, inr, Bool, true, false,
  ◌&&◌, ◌||◌, not, ltb, ◌==◌, if◌then◌else◌, Option, none, some,
}
use hello_deploy.Builder.Halted.{restarted, IsDown, Reach-IsDown}
use hello_deploy.Builder.System.{System, after_piece, Step, Reach, call, answer, here, next}
use hello_deploy.Builder.{
  ready, building, start_timeout_ms, Build, Controller, Call, Task, Answer, Piece, is_state,
  cancel_active_build, done, await, begin_stop, begin, poll_again, is_idle, idle_check,
  after_settings, resume,
}

module _ (lease : ℕ) where
  abbrev is_cancelled : Option Build → Bool
  is_cancelled none = true
  is_cancelled (some b) = not (b.lease == lease) || b.is_aborted

  -- The lease has been granted, and no uncancelled build has it.
  abbrev is_over : Controller → Bool
  is_over c = ltb lease c.next_lease && is_cancelled c.active_build

  abbrev IsOver : Controller → Type 0
  IsOver c = is_over c ≡ true

  module _ (now : ℕ) (c : Controller) (h : IsOver c) where
    begin_stop-IsOver : IsOver (begin_stop c).controller
    unfolding begin_stop
    begin_stop-IsOver = ground arith

    poll_again-IsOver : (g deadline : ℕ) → IsOver (poll_again g deadline c).controller
    unfolding poll_again
    poll_again-IsOver g deadline = ground arith

    cancel-IsOver : IsOver (cancel_active_build c)
    cancel-IsOver = ground arith

  either :
      (b : Bool) (p q : Piece)
      → IsOver p.controller
      → IsOver q.controller
      → IsOver (if b then p else q).controller
  either true p q x y = x
  either false p q x y = y

  idle_check-IsOver : (now : ℕ) (c : Controller) → IsOver c → IsOver (idle_check now c).controller
  unfolding idle_check
  idle_check-IsOver now c h =
      either (is_idle now c) (begin_stop c) (done c) (begin_stop-IsOver now c h) h

  after_settings-IsOver :
      (now : ℕ) (c : Controller) → IsOver c → IsOver (after_settings now c).controller
  after_settings-IsOver now c h =
      either (is_state c.state ready || is_state c.state building) (await Task.tick_unit c)
        (idle_check now c) h (idle_check-IsOver now c h)

  resume-IsOver :
      (t : Task) (a : Answer) (now : ℕ) (c : Controller)
      → IsOver c
      → IsOver (resume t a now c).controller
  unfolding resume
  resume-IsOver (Task.start_unit g) Answer.yes now c h =
      poll_again-IsOver now c h g (now + start_timeout_ms)
  resume-IsOver (Task.sleep g deadline) a now c h = poll_again-IsOver now c h g deadline
  resume-IsOver (Task.acquire_resources r) a now c h = ground arith
  resume-IsOver Task.tick_settings (Answer.minutes m) now c h =
      after_settings-IsOver now (record c { idle_minutes = m }) h
  resume-IsOver Task.tick_settings _ now c h = after_settings-IsOver now c h
  resume-IsOver Task.tick_unit Answer.yes now c h = idle_check-IsOver now c h
  resume-IsOver Task.tick_unit _ now c h = cancel-IsOver now c h
  resume-IsOver Task.tick_idle a now c h = idle_check-IsOver now c h
  resume-IsOver _ a now c h = ground arith

  begin-IsOver :
      (k : Call) (now : ℕ) (c : Controller) → IsOver c → IsOver (begin k now c).controller
  unfolding begin
  begin-IsOver Call.stop now c h = begin_stop-IsOver now c h
  begin-IsOver Call.emergency_stop now c h = cancel-IsOver now c h
  begin-IsOver _ now c h = ground arith

  emergency_stop-IsOver :
      (now : ℕ) (c : Controller)
      → lease < c.next_lease
      → IsOver (begin Call.emergency_stop now c).controller
  unfolding begin
  emergency_stop-IsOver now c lt = elim (Option-cases c.active_build) [
    | inl e ↦ ground arith
    | inr (b, e) ↦ ground arith
  ]

  step-IsOver : {s t : System} → IsOver s.controller → Step s t → IsOver t.controller
  step-IsOver {s} h (call k now) = begin-IsOver k now s.controller h
  step-IsOver {s} h (answer before after t a now e) = resume-IsOver t a now s.controller h

  Reach-IsOver : {s t : System} → IsOver s.controller → Reach s t → IsOver t.controller
  Reach-IsOver h here = h
  Reach-IsOver h (next r st) = step-IsOver (Reach-IsOver h r) st

begin-IsDown :
    (now : ℕ) (c : Controller) → IsDown c.next_lease (begin Call.emergency_stop now c).controller
unfolding begin
begin-IsDown now c = ground arith

-- An Emergency Stop cancels for good every build granted before it, however calls and answers
-- interleave: in every later state there is no active build, or it was granted after the stop, or it
-- is cancelled; and none has been granted since, unless after the stop the resources for a start
-- were found to suffice or the service that ran when the worker began was verified.
pub emergency_stop_cancels :
    (s t : System) (now : ℕ)
    (r : Reach (after_piece (begin Call.emergency_stop now s.controller) s.tasks s.held) t)
    → ((t.controller.active_build ≡ none)
        ⊎ ((b : Build) × (t.controller.active_build ≡ some b)
            × ((s.controller.next_lease ≤ b.lease) ⊎ (b.is_aborted ≡ true))))
      × ((restarted r ≡ true) ⊎ (t.controller.next_lease ≡ s.controller.next_lease))
emergency_stop_cancels s t now r = (
  later t.controller.active_build refl
      λ lease lt. Reach-IsOver lease (emergency_stop-IsOver lease now s.controller lt) r,
  elim (Reach-IsDown s.controller.next_lease r (begin-IsDown now s.controller)) [
    | inl again ↦ inl again
    | inr down ↦ inr (ground (arith, down))
  ],
)
  where
    later :
        (a : Option Build)
        → t.controller.active_build ≡ a
        → ((lease : ℕ)
            → lease < s.controller.next_lease
            → (ltb lease t.controller.next_lease && is_cancelled lease a) ≡ true)
        → (t.controller.active_build ≡ none)
          ⊎ ((b : Build) × (t.controller.active_build ≡ some b)
              × ((s.controller.next_lease ≤ b.lease) ⊎ (b.is_aborted ≡ true)))
    later none q over = inl q
    later (some b) q over = inr (
      b,
      q,
      elim (Bool-cases (ltb b.lease s.controller.next_lease)) [
        | inr old ↦ inl (ground (arith, old))
        | inl lt ↦ inr (ground (arith, over b.lease (ground (arith, lt))))
      ],
    )
