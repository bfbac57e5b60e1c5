-- ===== src/Builder/System.antt =====
-- Any number of calls of the controller of apps/worker/src/builder/builder-controller.js, interleaved.
use hello_deploy.Prelude.{ℕ, ◌==◌, not, Option, none, some, List, [], ◌∷◌, ◌++◌, keep_if, ◌≡◌}
use hello_deploy.Builder.{Controller, initial, Call, release, Task, Answer, Piece, begin, resume}

-- The controller with the calls that wait and the leases that were granted and not yet released.
pub record System : Type 0 where
  pub controller : Controller
  pub tasks : List Task
  pub held : List ℕ

abbrev pub begun : System
begun = record { controller = initial; tasks = []; held = [] }

abbrev pub add_task : Option Task → List Task → List Task
add_task none tasks = tasks
add_task (some t) tasks = t ∷ tasks

abbrev pub add_lease : Option ℕ → List ℕ → List ℕ
add_lease none held = held
add_lease (some lease) held = lease ∷ held

abbrev pub after_piece : Piece → List Task → List ℕ → System
after_piece p tasks held = record {
  controller = p.controller;
  tasks = add_task p.task tasks;
  held = add_lease p.granted held;
}

-- A release hands its lease back.
abbrev pub hand_back : Call → List ℕ → List ℕ
hand_back (release lease) held = keep_if (λ l. not (l == lease)) held
hand_back k held = held

-- A call begins, or one that waits is answered. Any call may begin at any time.
pub data Step (s : System) : System → Type 0 where
  call :
      (k : Call) (now : ℕ)
      → Step s (after_piece (begin k now s.controller) s.tasks (hand_back k s.held))
  answer :
      (before after : List Task) (t : Task) (a : Answer) (now : ℕ)
      → s.tasks ≡ before ++ t ∷ after
      → Step s (after_piece (resume t a now s.controller) (before ++ after) s.held)

pub data Reach (s : System) : System → Type 0 where
  here : Reach s s
  next : {t u : System} → Reach s t → Step t u → Reach s u
