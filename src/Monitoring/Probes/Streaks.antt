-- ===== src/Monitoring/Probes/Streaks.antt =====
-- The counters of a probe history and its runs of equal results, in the tracker of
-- apps/worker/src/monitoring/probes.js.
use mathlib.Core.List.{Memᴰ}
use hello_deploy.Prelude.{
  ◌∙◌, sym, All, All-at, ap, ◌==◌, beq_refl, includes-cons, ◌≢◌, ℕ, suc, ◌≡◌, refl, arith, ◌⊎◌, inl,
  Bool, true, false, not, if◌then◌else◌, Option, some, or_else, List, [], ◌∷◌, map, includes, ℕ_eq,
}
use hello_deploy.Prelude.Assoc.{lookup, lookup-insert, lookup-retain}
use hello_deploy.Monitoring.Probes.{
  Answer, History, no_history, is_ok, record_answer, record_public, Target, Request, Network,
  probe_target, probe_all, run,
}

-- The history after a list of answers, the newest first.
unfoldable pub after : List (ℕ × Answer) → History
after [] = no_history
after ((at, a) ∷ older) = record_answer at a (after older)

abbrev pub agrees : Bool → Bool → Bool
agrees true b = b
agrees false b = not b

-- How many of the newest answers in a row pass, or fail.
abbrev pub streak : Bool → List (ℕ × Answer) → ℕ
streak b [] = 0
streak b ((at, a) ∷ older) = let rest = streak b older in if agrees b (is_ok a) then suc rest else 0

-- After any answers, the two counters are the lengths of the newest runs of failures and of
-- passes, so at most one of them is not zero.
pub counters_are_streaks :
    (answers : List (ℕ × Answer))
    → ((after answers).consecutive_failures ≡ streak false answers)
      × ((after answers).consecutive_successes ≡ streak true answers)
      × (((after answers).consecutive_failures ≡ 0) ⊎ ((after answers).consecutive_successes ≡ 0))
unfolding after record_answer
counters_are_streaks [] = (refl, refl, inl refl)
counters_are_streaks ((at, a) ∷ older) = ground (arith, counters_are_streaks older)

abbrev pub Apart : ℕ → List Target → Type 0
Apart i = All (λ t. t.project_id ≢ i)

abbrev pub HasDistinctProjects : List Target → Type 0
HasDistinctProjects [] = Unit
HasDistinctProjects (t ∷ ts) = Apart t.project_id ts × HasDistinctProjects ts

module _ (net : Network) (request : Request) (at : ℕ) where
  -- What a run makes of a target's history.
  abbrev pub probed : Target → Option History → History
  probed t h =
      record_public request t (net.public_url t)
        (record_answer at (net.loopback t) (or_else h no_history))

  lookup-probe_target :
      (t : Target) (i : ℕ) (history : List (ℕ × History))
      → lookup i (probe_target net request at t history) ≡ (
          if t.project_id == i
          then some (probed t (lookup t.project_id history))
          else lookup i history)
  unfolding probe_target
  lookup-probe_target t i history =
      lookup-insert t.project_id i (probed t (lookup t.project_id history)) history

  probe_target_other :
      (t : Target) (i : ℕ) (history : List (ℕ × History))
      → t.project_id ≢ i
      → lookup i (probe_target net request at t history) ≡ lookup i history
  probe_target_other t i history n = ground (arith, lookup-probe_target t i history)

  probe_all_other :
      (ts : List Target) (i : ℕ) (history : List (ℕ × History))
      → Apart i ts
      → lookup i (probe_all net request at ts history) ≡ lookup i history
  unfolding probe_all
  probe_all_other [] i history h = refl
  probe_all_other (t ∷ ts) i history (n, h) =
      probe_all_other ts i (probe_target net request at t history) h
      ∙ probe_target_other t i history n

  probe_all_target :
      (ts : List Target) (t : Target) (history : List (ℕ × History))
      → HasDistinctProjects ts
      → Memᴰ t ts
      → lookup t.project_id (probe_all net request at ts history)
        ≡ some (probed t (lookup t.project_id history))
  unfolding probe_all
  probe_all_target [] t history u m = elim m [ ]
  probe_all_target (x ∷ ts) t history (a, u) (Memᴰ.head e) = rw e (
      probe_all_other ts x.project_id (probe_target net request at x history) a
      ∙ rw (lookup-probe_target x x.project_id history, beq_refl {A = ℕ} x.project_id) refl)
  probe_all_target (x ∷ ts) t history (a, u) (Memᴰ.tail m) =
      probe_all_target ts t (probe_target net request at x history) u m
      ∙ ap (λ o. some (probed t o))
          (probe_target_other x t.project_id history
            (λ e. All-at (λ y. y.project_id ≢ x.project_id) ts a m (sym e)))

  includes-ids :
      (ts : List Target) (t : Target)
      → Memᴰ t ts
      → includes (map (λ x. x.project_id) ts) t.project_id ≡ true
  includes-ids [] t m = elim m [ ]
  includes-ids (x ∷ ts) t (Memᴰ.head e) = rw e (ground (arith, beq_refl {A = ℕ} x.project_id))
  includes-ids (x ∷ ts) t (Memᴰ.tail m) =
      includes-cons x.project_id t.project_id (map (λ y. y.project_id) ts) (includes-ids ts t m)

-- With one target for each project, a run counts each target's answer once, on what was known of
-- it before the run.
pub run_counts_once :
    (net : Network) (request : Request) (at : ℕ) (targets : List Target) (t : Target)
    (history : List (ℕ × History))
    → HasDistinctProjects targets
    → Memᴰ t targets
    → lookup t.project_id (run net request at targets history)
      ≡ some (probed net request at t (lookup t.project_id history))
unfolding run
run_counts_once net request at targets t history u m =
    rw
      (
        lookup-retain (includes (map (λ x. x.project_id) targets)) t.project_id
            (probe_all net request at targets history),
        includes-ids net request at targets t m,
      )
      (probe_all_target net request at targets t history u m)
