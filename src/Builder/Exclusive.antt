-- ===== src/Builder/Exclusive.antt =====
-- The active build and the leases, in apps/worker/src/builder/builder-controller.js.
use hello_deploy.Prelude.{
  ℕ, ◌+◌, ◌<◌, ◌≡◌, ◌≢◌, refl, ap, sym, arith, ◌⊎◌, inl, inr, Bool, true, false, ◌&&◌, ◌||◌, not,
  ltb, ◌==◌, ==_iff, if◌then◌else◌, Option, none, some, is_some, List, [], ◌∷◌,
}
use hello_deploy.Builder.System.{
  System, begun, add_lease, hand_back, Step, Reach, call, answer, here, next,
}
use hello_deploy.Builder.{
  ready, building, failed, start_timeout_ms, Build, Controller, Call, Task, Answer, Piece, is_state,
  set_state, abort_active, cancel_active_build, done, await, begin_stop, begin, poll_again, is_idle,
  idle_check, after_settings, resume,
}

-- The leases that are held are that of the active build.
abbrev matches : Option Build → List ℕ → Bool
matches none [] = true
matches (some b) (l ∷ []) = b.lease == l
matches _ _ = false

-- The active build's lease is not one that will be granted again.
abbrev is_old : Controller → Bool
is_old c = elim c.active_build [ none ↦ true | some b ↦ ltb b.lease c.next_lease ]

abbrev has_build : Controller → Bool
has_build c = (not (is_state c.state building) || is_some c.active_build) && is_old c

abbrev IsExclusive : Controller → List ℕ → Type 0
IsExclusive c held = (matches c.active_build held ≡ true) × (has_build c ≡ true)

module _ (now : ℕ) (c : Controller) (held : List ℕ) (h : IsExclusive c held) where
  abbrev Keeps : Piece → Type 0
  Keeps p = IsExclusive p.controller (add_lease p.granted held)

  begin_stop-IsExclusive : Keeps (begin_stop c)
  unfolding begin_stop
  begin_stop-IsExclusive = ground arith

  poll_again-IsExclusive : (g deadline : ℕ) → Keeps (poll_again g deadline c)
  unfolding poll_again
  poll_again-IsExclusive g deadline = ground arith

  cancel-is_old : has_build (set_state failed (cancel_active_build c)) ≡ true
  cancel-is_old = ground arith

  cancel-matches : matches (abort_active c.active_build) held ≡ true
  cancel-matches = ground arith

either :
    (b : Bool) (p q : Piece) (held : List ℕ)
    → IsExclusive p.controller (add_lease p.granted held)
    → IsExclusive q.controller (add_lease q.granted held)
    → IsExclusive (if b then p else q).controller (add_lease (if b then p else q).granted held)
either true p q held x y = x
either false p q held x y = y

idle_check-IsExclusive :
    (now : ℕ) (c : Controller) (held : List ℕ)
    → IsExclusive c held
    → IsExclusive (idle_check now c).controller (add_lease (idle_check now c).granted held)
unfolding idle_check
idle_check-IsExclusive now c held h =
    either (is_idle now c) (begin_stop c) (done c) held (begin_stop-IsExclusive now c held h) h

after_settings-IsExclusive :
    (now : ℕ) (c : Controller) (held : List ℕ)
    → IsExclusive c held
    → IsExclusive (after_settings now c).controller (add_lease (after_settings now c).granted held)
after_settings-IsExclusive now c held h =
    either (is_state c.state ready || is_state c.state building) (await Task.tick_unit c)
      (idle_check now c) held h (idle_check-IsExclusive now c held h)

resume-IsExclusive :
    (t : Task) (a : Answer) (now : ℕ) (c : Controller) (held : List ℕ)
    → IsExclusive c held
    → IsExclusive (resume t a now c).controller (add_lease (resume t a now c).granted held)
unfolding resume
resume-IsExclusive Task.start_resources a now c held h = ground arith
resume-IsExclusive Task.start_publish a now c held h = h
resume-IsExclusive (Task.start_unit g) Answer.yes now c held h =
    poll_again-IsExclusive now c held h g (now + start_timeout_ms)
resume-IsExclusive (Task.start_unit g) _ now c held h = ground arith
resume-IsExclusive (Task.poll g deadline) a now c held h = ground arith
resume-IsExclusive (Task.sleep g deadline) a now c held h =
    poll_again-IsExclusive now c held h g deadline
resume-IsExclusive Task.stop_unit a now c held h = ground arith
resume-IsExclusive Task.kill_unit a now c held h = ground arith
resume-IsExclusive (Task.acquire_verify r) a now c held h = ground arith
resume-IsExclusive (Task.acquire_resources r) a now c held h = ground arith
resume-IsExclusive (Task.monitor_resources b) a now c held h = ground arith
resume-IsExclusive (Task.monitor_unit b) a now c held h = ground arith
resume-IsExclusive Task.monitor_kill a now c held h = ground arith
resume-IsExclusive Task.monitor_publish a now c held h = h
resume-IsExclusive Task.tick_settings (Answer.minutes m) now c held h =
    after_settings-IsExclusive now (record c { idle_minutes = m }) held h
resume-IsExclusive Task.tick_settings _ now c held h = after_settings-IsExclusive now c held h
resume-IsExclusive Task.tick_unit Answer.yes now c held h = idle_check-IsExclusive now c held h
resume-IsExclusive Task.tick_unit _ now c held h =
    (cancel-matches now c held h, cancel-is_old now c held h)
resume-IsExclusive Task.tick_idle a now c held h = idle_check-IsExclusive now c held h
resume-IsExclusive Task.reconcile_since a now c held h = h
resume-IsExclusive Task.reconcile_unit a now c held h = ground arith
resume-IsExclusive Task.reconcile_verify a now c held h = ground arith

begin-IsExclusive :
    (k : Call) (now : ℕ) (c : Controller) (held : List ℕ)
    → IsExclusive c held
    → IsExclusive (begin k now c).controller (add_lease (begin k now c).granted (hand_back k held))
unfolding begin
begin-IsExclusive Call.start now c held h = ground arith
begin-IsExclusive Call.stop now c held h = begin_stop-IsExclusive now c held h
begin-IsExclusive Call.emergency_stop now c held h =
    (cancel-matches now c held h, cancel-is_old now c held h)
begin-IsExclusive Call.monitor now c held h = ground arith
begin-IsExclusive Call.tick now c held h = h
begin-IsExclusive Call.reconcile now c held h = h
begin-IsExclusive (Call.acquire r) now c held h = ground arith
begin-IsExclusive (Call.release lease) now c held h = ground arith

step-IsExclusive :
    {s t : System} → IsExclusive s.controller s.held → Step s t → IsExclusive t.controller t.held
step-IsExclusive {s} h (call k now) = begin-IsExclusive k now s.controller s.held h
step-IsExclusive {s} h (answer before after t a now e) =
    resume-IsExclusive t a now s.controller s.held h

Reach-IsExclusive :
    {s t : System} → IsExclusive s.controller s.held → Reach s t → IsExclusive t.controller t.held
Reach-IsExclusive h here = h
Reach-IsExclusive h (next r st) = step-IsExclusive (Reach-IsExclusive h r) st

-- However calls and answers interleave, at most one lease is held at a time; it is that of the
-- active build, which there is just when a lease is held, and always in the state BUILDING.
pub builds_exclusive :
    (s : System)
    → Reach begun s
    → (((s.held ≡ []) × (s.controller.active_build ≡ none))
        ⊎ ((b : Build) × (s.held ≡ b.lease ∷ []) × (s.controller.active_build ≡ some b)))
      × ((s.controller.state ≢ building) ⊎ (is_some s.controller.active_build ≡ true))
builds_exclusive s r =
    let (m, b) =
      Reach-IsExclusive (let h : IsExclusive begun.controller begun.held = (refl, refl) in h) r in
    (holder s.controller.active_build s.held m, ground arith)
  where
    holder :
        (a : Option Build) (held : List ℕ)
        → matches a held ≡ true
        → ((held ≡ []) × (a ≡ none)) ⊎ ((b : Build) × (held ≡ b.lease ∷ []) × (a ≡ some b))
    holder none [] m = inl (refl, refl)
    holder none (l ∷ ls) m = absurd (ground arith)
    holder (some b) [] m = absurd (ground arith)
    holder (some b) (l ∷ []) m = inr (b, ap (λ x. x ∷ []) (sym ((==_iff b.lease l).0 m)), refl)
    holder (some b) (l ∷ k ∷ ls) m = absurd (ground arith)

pub active_lease_old :
    (s : System) (b : Build)
    → Reach begun s
    → s.controller.active_build ≡ some b
    → b.lease < s.controller.next_lease
active_lease_old s b r e =
    let (_, h) =
      Reach-IsExclusive (let h : IsExclusive begun.controller begun.held = (refl, refl) in h) r in
    ground (arith, e, h)
