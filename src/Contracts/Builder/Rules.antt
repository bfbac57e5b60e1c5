-- ===== src/Contracts/Builder/Rules.antt =====
-- Who is eligible for a build, and what an admitted build can be cancelled for, by
-- packages/contracts/src/builder-control.js.
use hello_deploy.Prelude.{
  ℕ, ◌≤◌, ◌≡◌, ◌↔◌, ◌⊎◌, inl, inr, refl, arith, Bool, true, false, ◌&&◌, not, if◌then◌else◌, Option,
  none, some, is_some, or_else, ap, ◌∙◌, List, [], ◌∷◌, ◌++◌, includes, ℕ_eq, All,
}
use hello_deploy.Contracts.Enums.{PlatformRole}
use hello_deploy.Contracts.Strategies.{BuildStrategy, BuildStrategy-eq}
use hello_deploy.Contracts.Builder.{
  HostResourceSample, Reason, memory, disk, swap, pressure, store_unreadable, store, app_pressure,
  builder_pressure, evaluate_builder_admission, evaluate_builder_pressure, at_least, at_most, below,
  reason_if, BuilderRuntimeFamily, get_builder_runtime_family, is_owner_image_strategy,
  BuilderSettings, is_administrator, family_eligibility, evaluate_builder_eligibility,
}

append-nil : (xs ys : List Reason) → xs ++ ys ≡ [] → (xs ≡ []) × (ys ≡ [])
append-nil [] ys h = (refl, h)
append-nil (x ∷ xs) ys h = absurd (ground arith)

reason_if-nil : (b : Bool) (r : Reason) → reason_if (not b) r ≡ [] → b ≡ true
reason_if-nil true r h = refl
reason_if-nil false r h = absurd (ground arith)

admission_parts :
    (a d : Bool) (bs cs es : List Reason)
    → reason_if (not a) memory ++ bs ++ cs ++ reason_if (not d) disk ++ es ≡ []
    → (a ≡ true) × (d ≡ true)
admission_parts a d bs cs es h =
    let ra = reason_if (not a) memory in
    let rd = reason_if (not d) disk in
    let (h1, _) = append-nil (ra ++ bs ++ cs ++ rd) es h in
    let (h2, n) = append-nil (ra ++ bs ++ cs) rd h1 in
    let (h3, _) = append-nil (ra ++ bs) cs h2 in
    let (m, _) = append-nil ra bs h3 in (reason_if-nil a memory m, reason_if-nil d disk n)

at_least-le : (x : Option ℕ) (a b : ℕ) → b ≤ a → at_least x a ≡ true → at_least x b ≡ true
at_least-le x a b le h = ground arith

pressure_reasons :
    (a b : Bool)
    → All
        (λ r. (r ≡ app_pressure) ⊎ (r ≡ builder_pressure))
        (reason_if a app_pressure ++ reason_if b builder_pressure ++ [])
pressure_reasons true true = (inl refl, (inr refl, tt))
pressure_reasons true false = (inl refl, tt)
pressure_reasons false true = (inr refl, tt)
pressure_reasons false false = tt

-- While the readings are those with which a build was admitted, it can be cancelled only for the
-- pressure of the running apps or of the builder itself, not for the host's memory or disk.
pub admitted_cancelled_for_pressure_only :
    (s : HostResourceSample)
    → evaluate_builder_admission s ≡ []
    → All (λ r. (r ≡ app_pressure) ⊎ (r ≡ builder_pressure)) (evaluate_builder_pressure s)
unfolding evaluate_builder_admission evaluate_builder_pressure
admitted_cancelled_for_pressure_only s h =
    let (no_memory, no_disk) =
      admission_parts (at_least s.mem_available_mb 2560) (at_least s.disk_free_gb 20)
        (reason_if (at_least s.swap_total_mb 1 && not (at_least s.swap_free_mb 512)) swap)
        (reason_if (not (below s.memory_pressure_some60 1000)) pressure)
        (if not (is_some s.store_free_gb)
          then store_unreadable ∷ []
          else reason_if (not (at_least s.store_free_gb 5)) store)
        h in
    let memory_left = at_least-le s.mem_available_mb 2560 600 (omega arith) no_memory in
    let disk_left = at_least-le s.disk_free_gb 20 10 (omega arith) no_disk in
    simp (memory_left, disk_left)
      (pressure_reasons (not (at_most s.app_memory_pressure_full10 500))
        (not (at_most s.builder_memory_pressure_full10 5000)))

family_eligibility_iff :
    (f : Option BuilderRuntimeFamily) (project : ℕ) (owner_role : Option PlatformRole)
    (settings : BuilderSettings)
    → (family_eligibility f project owner_role settings ≡ none) ↔ (
        (f ≡ none)
        ⊎ ((family : BuilderRuntimeFamily) × (f ≡ some family)
            × (is_administrator owner_role ≡ true)
            × ((settings.runtimes family).enabled ≡ true)
            × (includes (settings.runtimes family).project_ids project ≡ true)))
family_eligibility_iff none project owner_role settings = ((λ h. inl refl), (λ h. refl))
family_eligibility_iff (some family) project owner_role settings =
    ((λ h. inr (family, refl, ground arith, ground arith, ground arith)), back)
  where
    back :
        (some family ≡ none)
          ⊎ ((other : BuilderRuntimeFamily) × (some family ≡ some other)
              × (is_administrator owner_role ≡ true)
              × ((settings.runtimes other).enabled ≡ true)
              × (includes (settings.runtimes other).project_ids project ≡ true))
        → family_eligibility (some family) project owner_role settings ≡ none
    back (inl e) = absurd (ground arith)
    back (inr (other, e, role, on, listed)) =
        let same : family ≡ other = ap (λ o. or_else o family) e in
        let on' = ap (λ f. (settings.runtimes f).enabled) same ∙ on in
        let listed' = ap (λ f. includes (settings.runtimes f).project_ids project) same ∙ listed in
        simp (role, on', listed') refl

-- A deployment is eligible exactly when it does not build an owner's image, and does not use the
-- builder or belongs to an administrator's project that the settings allow for its family.
pub eligible_iff :
    (s : BuildStrategy) (project : ℕ) (owner_role : Option PlatformRole)
    (settings : BuilderSettings)
    → (evaluate_builder_eligibility s project owner_role settings ≡ none) ↔ (
        (is_owner_image_strategy s ≡ false)
        × ((get_builder_runtime_family s ≡ none)
            ⊎ ((family : BuilderRuntimeFamily) × (get_builder_runtime_family s ≡ some family)
                × (is_administrator owner_role ≡ true)
                × ((settings.runtimes family).enabled ≡ true)
                × (includes (settings.runtimes family).project_ids project ≡ true))))
unfolding evaluate_builder_eligibility
eligible_iff s project owner_role settings =
    ground
      (arith, family_eligibility_iff (get_builder_runtime_family s) project owner_role settings)
