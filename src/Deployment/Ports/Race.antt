-- ===== src/Deployment/Ports/Race.antt =====
-- Two deployments that run `allocatePort` of apps/worker/src/deployment/port-allocator.js at the
-- same time over one collection: each of scan, write and check is one step, in any order. A port
-- may turn out to be busy, and the status of either deployment may change at any time.
use hello_deploy.Prelude.{
  ◌⊎◌, inl, inr, ℕ, ◌<◌, ◌≡◌, ◌≢◌, refl, arith, Bool, true, false, Bool-cases, Option, none, some,
  List, [], ◌∷◌,
}
use hello_deploy.Contracts.Enums.{DeploymentStatus, deploying}
use hello_deploy.Deployment.Ports.{Other, is_holder, is_used, rival, wins}

-- Where a deployment stands in its claim.
pub data Phase : Type 0 where
  idle : Phase
  found written kept : ℕ → Phase

-- The phases and the `status` and `containerPort` fields of the deployment with the lower id and of
-- the other.
pub record Pair : Type 0 where
  pub low : Phase
  pub high : Phase
  pub low_status : DeploymentStatus
  pub high_status : DeploymentStatus
  pub low_port : Option ℕ
  pub high_port : Option ℕ

abbrev pub start : Pair
start = record {
  low = idle;
  high = idle;
  low_status = deploying;
  high_status = deploying;
  low_port = none;
  high_port = none;
}

-- A deployment as the other one reads it.
abbrev pub as_other : ℕ → DeploymentStatus → Option ℕ → List Other
as_other id status port = record { id = id; status = status; container_port = port } ∷ []

module _ (a b : ℕ) where
  pub data Step (s : Pair) : Pair → Type 0 where
    low_scan :
        (p : ℕ)
        → s.low ≡ idle
        → is_used p (as_other b s.high_status s.high_port) ≡ false
        → Step s (record s { low = found p })
    low_write : (p : ℕ) → s.low ≡ found p → Step s (record s { low = written p; low_port = some p })
    low_keep :
        (p : ℕ)
        → s.low ≡ written p
        → wins a (rival p (as_other b s.high_status s.high_port)) ≡ true
        → Step s (record s { low = kept p })
    -- `probePortFree` says no
    low_busy :
        (p : ℕ)
        → s.low ≡ written p
        → wins a (rival p (as_other b s.high_status s.high_port)) ≡ true
        → Step s (record s { low = idle; low_port = none })
    low_update : (status : DeploymentStatus) → Step s (record s { low_status = status })
    low_lose :
        (p : ℕ)
        → s.low ≡ written p
        → wins a (rival p (as_other b s.high_status s.high_port)) ≡ false
        → Step s (record s { low = idle; low_port = none })
    high_scan :
        (p : ℕ)
        → s.high ≡ idle
        → is_used p (as_other a s.low_status s.low_port) ≡ false
        → Step s (record s { high = found p })
    high_write :
        (p : ℕ) → s.high ≡ found p → Step s (record s { high = written p; high_port = some p })
    high_keep :
        (p : ℕ)
        → s.high ≡ written p
        → wins b (rival p (as_other a s.low_status s.low_port)) ≡ true
        → Step s (record s { high = kept p })
    -- `probePortFree` says no
    high_busy :
        (p : ℕ)
        → s.high ≡ written p
        → wins b (rival p (as_other a s.low_status s.low_port)) ≡ true
        → Step s (record s { high = idle; high_port = none })
    high_update : (status : DeploymentStatus) → Step s (record s { high_status = status })
    high_lose :
        (p : ℕ)
        → s.high ≡ written p
        → wins b (rival p (as_other a s.low_status s.low_port)) ≡ false
        → Step s (record s { high = idle; high_port = none })

  pub data Reach (s : Pair) : Pair → Type 0 where
    here : Reach s s
    next : {t u : Pair} → Reach s t → Step t u → Reach s u

  -- The other deployment finds that the lower id holds the port.
  abbrev pub low_holds : ℕ → Pair → Bool
  low_holds p s = is_used p (as_other a s.low_status s.low_port)

  -- The lower id holds the port, and the higher one has not kept it.
  record IsSettled (p : ℕ) (s : Pair) : Type 0 where
    holds : low_holds p s ≡ true
    phase : (s.low ≡ written p) ⊎ (s.low ≡ kept p)
    apart : s.high ≢ kept p

  module _ (lt : a < b) (p : ℕ) where
    low_wins : (st : DeploymentStatus) (o : Option ℕ) → wins a (rival p (as_other b st o)) ≡ true
    unfolding rival is_holder
    low_wins st o = ground arith

    high_loses :
        (s : Pair)
        → low_holds p s ≡ true
        → wins b (rival p (as_other a s.low_status s.low_port)) ≡ false
    unfolding rival is_used is_holder
    high_loses s h = ground (arith, h)

    IsSettled-Step :
        {s t : Pair} → Step s t → IsSettled p s → IsSettled p t ⊎ (low_holds p t ≡ false)
    unfolding is_used is_holder
    IsSettled-Step {s} (low_scan q e u) h = absurd (ground (arith, h.phase))
    IsSettled-Step {s} (low_write q e) h = absurd (ground (arith, h.phase))
    IsSettled-Step {s} (low_keep q e w) h =
        inl (record { holds = h.holds; phase = inr (ground (arith, h.phase)); apart = h.apart })
    IsSettled-Step {s} (low_busy q e w) h = inr (ground arith)
    IsSettled-Step {s} (low_update st) h =
        elim (Bool-cases (low_holds p (record s { low_status = st }))) [
          | inl still ↦ inl (record { holds = still; phase = h.phase; apart = h.apart })
          | inr given ↦ inr given
        ]
    IsSettled-Step {s} (low_lose q e w) h =
        absurd (ground (arith, h.phase, low_wins s.high_status s.high_port))
    IsSettled-Step {s} (high_scan q e u) h =
        inl (record { holds = h.holds; phase = h.phase; apart = λ k. cc })
    IsSettled-Step {s} (high_write q e) h =
        inl (record { holds = h.holds; phase = h.phase; apart = λ k. cc })
    IsSettled-Step {s} (high_keep q e w) h = inl (record {
      holds = h.holds;
      phase = h.phase;
      apart = λ k. absurd (ground (arith, k, w, high_loses s h.holds));
    })
    IsSettled-Step {s} (high_busy q e w) h =
        inl (record { holds = h.holds; phase = h.phase; apart = λ k. cc })
    IsSettled-Step {s} (high_update st) h =
        inl (record { holds = h.holds; phase = h.phase; apart = h.apart })
    IsSettled-Step {s} (high_lose q e w) h =
        inl (record { holds = h.holds; phase = h.phase; apart = λ k. cc })

    -- On the way, there was a state in which the lower one had given the port up.
    abbrev GivenUp : Pair → Pair → Type 0
    GivenUp s t = (u : Pair) × Reach s u × Reach u t × (low_holds p u ≡ false)

    IsSettled-Reach : {s t : Pair} → IsSettled p s → Reach s t → IsSettled p t ⊎ GivenUp s t
    IsSettled-Reach h here = inl h
    IsSettled-Reach {s} h (next {t} {u} r st) = elim (IsSettled-Reach h r) [
      | inr (v, before, after, given) ↦ inr (v, before, next after st, given)
      | inl k ↦ elim (IsSettled-Step st k) [
        | inl settled ↦ inl settled
        | inr given ↦ inr (u, next r st, here, given)
      ]
    ]

-- When the deployment with the lower id has written a port that the other has not kept, then in every
-- later state the lower one still holds that port and the other has not kept it, or there was a state
-- between in which the lower one no longer held it.
pub lower_id_keeps :
    (a b : ℕ) (p : ℕ) (s t : Pair)
    → a < b
    → s.low ≡ written p
    → low_holds a b p s ≡ true
    → s.high ≢ kept p
    → Reach a b s t
    → ((low_holds a b p t ≡ true) × ((t.low ≡ written p) ⊎ (t.low ≡ kept p)) × (t.high ≢ kept p))
      ⊎ ((u : Pair) × Reach a b s u × Reach a b u t × (low_holds a b p u ≡ false))
lower_id_keeps a b p s t lt w o n r =
    elim (IsSettled-Reach a b lt p (record { holds = o; phase = inl w; apart = n }) r) [
      | inl h ↦ inl (h.holds, h.phase, h.apart)
      | inr given ↦ inr given
    ]

-- The other order is not excluded: whatever the two ids and the port, both deployments may end up
-- keeping the same port. The higher id writes and checks between the lower one's scan and write.
pub double_claim :
    (a b p : ℕ)
    → a < b
    → Reach a b start
        (record start { low = kept p; high = kept p; low_port = some p; high_port = some p })
unfolding is_used rival is_holder
double_claim a b p lt =
    next
      (next
        (next
          (next (next (next here (low_scan p refl refl)) (high_scan p refl refl))
            (high_write p refl))
          (high_keep p refl refl))
        (low_write p refl))
      (low_keep p refl (low_wins a b lt p deploying (some p)))
