-- ===== src/Monitoring/Alerts/Unique/Counts.antt =====
-- How many incidents of a fingerprint are open after one write of
-- apps/worker/src/monitoring/alert-engine.js or of an administrator.
use hello_deploy.Prelude.{
  ◌∙◌, and-eq-true, ap, sym, ℕ, ◌+◌, ◌≤◌, ◌≡◌, refl, arith, Bool, true, false, ◌&&◌, if◌then◌else◌,
  ◌==◌, ◌=?◌, inl, inr, Bool-cases, Option, none, some, List, [], ◌∷◌, ◌++◌, String, string_eq,
}
use hello_deploy.Monitoring.Incidents.{
  IncidentState, active, acknowledged, Incident, is_open, is_open_for, find_open, find_recent,
  later, resolved_since, update_open, replace, acknowledge,
}

abbrev pub one : Bool → ℕ
one true = 1
one false = 0

-- How many incidents of the fingerprint are open.
unfoldable pub count_open : String → List Incident → ℕ
count_open j [] = 0
count_open j (d ∷ ds) = one (is_open_for j d) + count_open j ds

abbrev pub IsUnique : List Incident → Type 0
IsUnique docs = (j : String) → count_open j docs ≤ 1

pub find_recent-fingerprint :
    (i : String) (at : ℕ) (ds : List Incident) (d : Incident)
    → find_recent i at ds ≡ some d
    → d.fingerprint ≡ i
unfolding find_recent
find_recent-fingerprint i at [] d h = ground arith
find_recent-fingerprint i at (x ∷ ds) d h =
    recent_here (find_recent i at ds) (find_recent-fingerprint i at ds) h
  where
    recent_here :
        (r : Option Incident)
        → ((d : Incident) → r ≡ some d → d.fingerprint ≡ i)
        → (if resolved_since i at x then some (later x r) else r) ≡ some d
        → d.fingerprint ≡ i
    recent_here none k h = ground (arith, string_eq.beq_iff x.fingerprint i)
    recent_here (some y) k h = ground (arith, k y refl, string_eq.beq_iff x.fingerprint i)

module _ (j : String) where
  count_open-find_open : (ds : List Incident) → find_open j ds ≡ none → count_open j ds ≡ 0
  unfolding count_open find_open
  count_open-find_open [] h = refl
  count_open-find_open (d ∷ ds) h = ground (arith, count_open-find_open ds)

  pub count_open-append :
      (ds : List Incident) (d : Incident)
      → count_open j (ds ++ d ∷ []) ≡ count_open j ds + one (is_open_for j d)
  unfolding count_open
  count_open-append [] d = omega arith
  count_open-append (x ∷ ds) d = omega (arith, count_open-append ds d)

  pub count_open-replace :
      (new : Incident) (ds : List Incident)
      → count_open j (replace new ds) ≤ count_open j ds + one (is_open_for j new)
  unfolding count_open replace
  count_open-replace new [] = omega arith
  count_open-replace new (d ∷ ds) = elim (Bool-cases (d.id == new.id)) [
    | inl e ↦ rw e (omega arith)
    | inr e ↦ rw e (omega (arith, count_open-replace new ds))
  ]

  one-le :
      (d x : Incident)
      → x.fingerprint ≡ d.fingerprint
      → is_open d.state ≡ true
      → one (is_open_for j x) ≤ one (is_open_for j d)
  one-le d x e o = ground arith

  -- A write to an open document that keeps its fingerprint opens no other.
  pub count_open-update_open :
      (id : ℕ) (f : Incident → Incident) (ds : List Incident)
      → ((d : Incident) → (f d).fingerprint ≡ d.fingerprint)
      → count_open j (update_open id f ds).1 ≤ count_open j ds
  unfolding count_open update_open
  count_open-update_open id f [] h = omega arith
  count_open-update_open id f (d ∷ ds) h = elim (Bool-cases (d.id == id && is_open d.state)) [
    | inl e ↦
        rw e
          (omega (arith, one-le d (f d) (h d) ((and-eq-true (d.id == id) (is_open d.state) e).1)))
    | inr e ↦ rw e (omega (arith, count_open-update_open id f ds h))
  ]

  pub count_open-acknowledge :
      (id actor at : ℕ) (ds : List Incident)
      → count_open j (acknowledge id actor at ds) ≡ count_open j ds
  unfolding count_open acknowledge
  count_open-acknowledge id actor at [] = refl
  count_open-acknowledge id actor at (d ∷ ds) = elim (Bool-cases (d.id == id)) [
    | inl e ↦ rw e (acknowledge_here d ds d.state refl)
    | inr e ↦ rw e (omega (arith, count_open-acknowledge id actor at ds))
  ]
    where
      acknowledge_here :
          (d : Incident) (ds : List Incident) (s : IncidentState)
          → d.state ≡ s
          → one (
                is_open_for j (elim d.state [
                  | active ↦ record d {
                    state = acknowledged;
                    acknowledged_at = some at;
                    acknowledged_by = some actor;
                  }
                  | _ ↦ d
                ]))
              + count_open j ds
            ≡ one (is_open_for j d) + count_open j ds
      acknowledge_here d ds s e = ground arith

  one_le_one : (b : Bool) → one b ≤ 1
  one_le_one true = omega arith
  one_le_one false = omega arith

  -- A document of a fingerprint that has no open incident leaves room for itself.
  pub room :
      (i : String) (d : Incident) (ds : List Incident)
      → d.fingerprint ≡ i
      → find_open i ds ≡ none
      → count_open j ds ≤ 1
      → count_open j ds + one (is_open_for j d) ≤ 1
  room i d ds e q h = elim (Bool-cases (d.fingerprint =? j)) [
    | inl s ↦
        let ij = sym e ∙ (string_eq.beq_iff d.fingerprint j).0 s in
        omega (
          arith,
          one_le_one (is_open_for j d),
          count_open-find_open ds (sym (ap (λ x. find_open x ds) ij) ∙ q),
        )
    | inr s ↦ rw s (omega (arith, h))
  ]
