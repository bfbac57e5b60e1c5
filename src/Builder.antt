-- ===== src/Builder.antt =====
-- apps/worker/src/builder/builder-controller.js: the owner of the on-demand builder. JavaScript runs
-- one piece of code at a time, from one `await` to the next, so a call is a first piece (`begin`) and
-- the pieces that continue it (`resume`), each with the answer that it waited for; between two
-- pieces of one call, pieces of others may run. An `await` with no use of the controller's variables
-- between it and the next is left out (`acquireBuild` reads its own lease after one, which no other
-- call can have released), and so are the published status, audit records and messages.
pub mod System
pub mod Exclusive
pub mod Halted
pub mod Cancelled
pub mod Stale
mod Tests
use hello_deploy.Prelude.{
  ℕ, suc, ◌+◌, ◌*◌, Bool, true, false, ◌&&◌, ◌||◌, not, ltb, leb, ◌==◌, if◌then◌else◌, Option, none,
  some, is_some, List, [], ◌∷◌, ◌++◌, keep_if, ◌≡◌,
}
use hello_deploy.Contracts.Enums.{PlatformRole, super_admin}
use hello_deploy.Contracts.Builder.{builder_limits, is_administrator}

-- `BuilderState` of packages/contracts/src/builder-control.js
pub data BuilderState : Type 0 where
  stopped starting ready building stopping failed : BuilderState

-- `acquireBuild`'s argument.
pub record Request : Type 0 where
  pub deployment_id : ℕ
  pub project_id : ℕ
  pub timeout_ms : ℕ

-- `activeBuild`. The object's identity is the number `lease`.
pub record Build : Type 0 where
  pub lease : ℕ
  pub request : Request
  pub started_at : ℕ
  pub is_aborted : Bool

-- The variables of `createBuilderController`; `idle_minutes` that is not set is 0.
pub record Controller : Type 0 where
  pub state : BuilderState
  pub active_build : Option Build
  pub start_generation : ℕ
  pub is_monitoring : Bool
  pub last_activity_at : Option ℕ
  pub idle_minutes : ℕ
  pub next_lease : ℕ

abbrev pub initial : Controller
initial = record {
  state = stopped;
  active_build = none;
  start_generation = 0;
  is_monitoring = false;
  last_activity_at = none;
  idle_minutes = 0;
  next_lease = 0;
}

-- The first pieces of calls. `reconcile` runs once, before any other call.
pub data Call : Type 0 where
  start stop emergency_stop monitor tick reconcile : Call
  acquire : Request → Call
  release : ℕ → Call

-- What a call waits for.
pub data Task : Type 0 where
  start_resources start_publish : Task
  start_unit : ℕ → Task
  poll sleep : ℕ → ℕ → Task
  stop_unit kill_unit : Task
  acquire_verify acquire_resources : Request → Task
  monitor_resources monitor_unit : Build → Task
  monitor_kill monitor_publish : Task
  tick_settings tick_unit tick_idle : Task
  reconcile_unit reconcile_verify reconcile_since : Task

-- What it is told: an error, or success with an answer. `yes` of resources is that there is no reason
-- against the build, of the unit that it is active (or, after a kill, that it is stopped).
pub data Answer : Type 0 where
  error yes no : Answer
  minutes : ℕ → Answer

abbrev pub is_state : BuilderState → BuilderState → Bool
is_state stopped stopped = true
is_state starting starting = true
is_state ready ready = true
is_state building building = true
is_state stopping stopping = true
is_state failed failed = true
is_state _ _ = false

abbrev pub set_state : BuilderState → Controller → Controller
set_state s c = record c { state = s }

abbrev pub start_timeout_ms : ℕ
start_timeout_ms = 90000

abbrev pub abort : Build → Build
abort b = record b { is_aborted = true }

abbrev pub abort_active : Option Build → Option Build
abort_active none = none
abort_active (some b) = some (abort b)

-- `cancelActiveBuild`
abbrev pub cancel_active_build : Controller → Controller
cancel_active_build c = record c { active_build = abort_active c.active_build }

-- What a piece leaves: the controller, the task that its call waits for, and the lease it grants.
pub record Piece : Type 0 where
  pub controller : Controller
  pub task : Option Task
  pub granted : Option ℕ

abbrev pub done : Controller → Piece
done c = record { controller = c; task = none; granted = none }

abbrev pub await : Task → Controller → Piece
await t c = record { controller = c; task = some t; granted = none }

abbrev pub is_free : Controller → Bool
is_free c = is_state c.state ready && not (is_some c.active_build)

abbrev pub next_generation : BuilderState → Controller → Controller
next_generation s c = record c { state = s; start_generation = c.start_generation + 1 }

-- `stop`, asked for by an administrator or by the idle shutdown.
unfoldable pub begin_stop : Controller → Piece
begin_stop c =
    if is_some c.active_build
    then done c
    else if is_state c.state stopped
    then done c
    else await stop_unit (next_generation stopping c)

abbrev pub release_build : ℕ → ℕ → Option Build → Controller → Controller
release_build lease now none c = c
release_build lease now (some b) c =
    if b.lease == lease
    then record c {
      active_build = none;
      last_activity_at = some now;
      state = if is_state c.state building then ready else c.state;
    }
    else c

abbrev pub begin_monitor : Option Build → Controller → Piece
begin_monitor none c = done c
begin_monitor (some b) c =
    if b.is_aborted || c.is_monitoring
    then done c
    else await (monitor_resources b) (record c { is_monitoring = true })

unfoldable pub begin : Call → ℕ → Controller → Piece
begin start now c =
    if is_state c.state starting
      || is_state c.state ready
      || is_state c.state building
      || is_state c.state stopping
    then done c
    else await start_resources c
begin stop now c = begin_stop c
begin emergency_stop now c = await kill_unit (next_generation stopping (cancel_active_build c))
begin (acquire r) now c = if is_free c then await (acquire_verify r) c else done c
begin (release lease) now c = done (release_build lease now c.active_build c)
begin monitor now c = begin_monitor c.active_build c
begin tick now c = await tick_settings c
begin reconcile now c = await reconcile_unit c

-- The head of the loop of `waitUntilReady`.
unfoldable pub poll_again : ℕ → ℕ → Controller → Piece
poll_again generation deadline c =
    if generation == c.start_generation && is_state c.state starting
    then await (poll generation deadline) c
    else done c

abbrev pub become_ready : ℕ → Controller → Controller
become_ready now c = record c { state = ready; last_activity_at = some now }

-- `setState(BUILDING)` and the lease.
abbrev pub grant : Request → ℕ → Controller → Piece
grant r now c = record {
  controller = record c {
    active_build =
        some (record { lease = c.next_lease; request = r; started_at = now; is_aborted = false });
    state = building;
    next_lease = c.next_lease + 1;
  };
  task = none;
  granted = some c.next_lease;
}

abbrev pub has_overrun : Build → ℕ → Bool
has_overrun b now =
    ltb (b.started_at + (b.request.timeout_ms + builder_limits.watchdog_grace_ms)) now

abbrev pub is_idle : ℕ → Controller → Bool
is_idle now c =
    is_free c
    && ltb 0 c.idle_minutes
    && elim c.last_activity_at [ none ↦ false | some at ↦ leb (at + c.idle_minutes * 60000) now ]

-- The end of `tick`.
unfoldable pub idle_check : ℕ → Controller → Piece
idle_check now c = if is_idle now c then begin_stop c else done c

abbrev pub after_settings : ℕ → Controller → Piece
after_settings now c =
    if is_state c.state ready || is_state c.state building
    then await tick_unit c
    else idle_check now c

unfoldable pub resume : Task → Answer → ℕ → Controller → Piece
resume start_resources yes now c = await start_publish (set_state starting c)
resume start_resources _ now c = done c
resume start_publish a now c =
    await (start_unit (c.start_generation + 1))
      (record c { start_generation = c.start_generation + 1 })
resume (start_unit g) yes now c = poll_again g (now + start_timeout_ms) c
resume (start_unit g) _ now c = done (set_state failed c)
resume (poll g deadline) yes now c =
    if g == c.start_generation && is_state c.state starting
    then done (become_ready now c)
    else done c
resume (poll g deadline) _ now c =
    if leb deadline now then done (set_state failed c) else await (sleep g deadline) c
resume (sleep g deadline) a now c = poll_again g deadline c
resume stop_unit yes now c = done (set_state stopped c)
resume stop_unit _ now c = done (set_state failed c)
resume kill_unit yes now c = done (set_state stopped c)
resume kill_unit _ now c = done (set_state failed c)
resume (acquire_verify r) yes now c = await (acquire_resources r) c
resume (acquire_verify r) _ now c = done (set_state failed c)
resume (acquire_resources r) yes now c = if is_free c then grant r now c else done c
resume (acquire_resources r) _ now c = done c
resume (monitor_resources b) yes now c = await (monitor_unit b) c
resume (monitor_resources b) _ now c = await monitor_publish (cancel_active_build c)
resume (monitor_unit b) yes now c =
    if has_overrun b now
    then await monitor_kill (cancel_active_build c)
    else await monitor_publish c
resume (monitor_unit b) no now c = await monitor_publish (set_state failed (cancel_active_build c))
resume (monitor_unit b) _ now c = await monitor_publish (cancel_active_build c)
resume monitor_kill a now c = await monitor_publish (set_state failed c)
resume monitor_publish a now c = done (record c { is_monitoring = false })
resume tick_settings (minutes m) now c = after_settings now (record c { idle_minutes = m })
resume tick_settings _ now c = after_settings now c
resume tick_unit yes now c = idle_check now c
resume tick_unit _ now c = await tick_idle (set_state failed (cancel_active_build c))
resume tick_idle a now c = idle_check now c
resume reconcile_unit yes now c = await reconcile_verify c
resume reconcile_unit _ now c = await tick_settings (set_state stopped c)
resume reconcile_verify yes now c = await reconcile_since (set_state ready c)
resume reconcile_since a now c = await tick_settings (record c { last_activity_at = some now })
resume reconcile_verify _ now c = await tick_settings (set_state failed c)

-- `BuilderControlAction` of packages/contracts/src/builder-control.js
pub data ControlAction : Type 0 where
  start_action stop_action emergency_stop_action check_registry : ControlAction

abbrev pub is_lifecycle : ControlAction → Bool
is_lifecycle check_registry = false
is_lifecycle _ = true

abbrev pub is_super_admin : Option PlatformRole → Bool
is_super_admin (some super_admin) = true
is_super_admin _ = false

-- The switch of `handleControlJob`: the registry's check does not touch the controller.
abbrev pub begin_action : ControlAction → ℕ → Controller → Piece
begin_action start_action now c = begin start now c
begin_action stop_action now c = begin stop now c
begin_action emergency_stop_action now c = begin emergency_stop now c
begin_action check_registry now c = done c

-- `handleControlJob`, once the requester's current role has been read.
unfoldable pub handle_control_job : Option PlatformRole → ControlAction → ℕ → Controller → Piece
handle_control_job role action now c =
    if (is_lifecycle action && not (is_super_admin role)) || not (is_administrator role)
    then done c
    else begin_action action now c
