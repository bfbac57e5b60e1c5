-- ===== src/Deployment/Ports/Claims.antt =====
-- What `allocatePort` of apps/worker/src/deployment/port-allocator.js answers, and when.
use hello_deploy.Prelude.{
  ℕ, zero, suc, ◌+◌, ◌-◌, ◌≤◌, ◌<◌, ◌≡◌, refl, arith, true, false, ◌&&◌, not, ◌⊎◌, inl, inr, Option,
  none, some, List, [], ◌∷◌, includes, ℕ_eq, Bool-cases, Option-cases,
}
use hello_deploy.Deployment.Ports.{
  Other, World, Outcome, claimed, is_used, scan, rival, wins, find_free_port, attempts,
  allocate_port, max_claim_attempts,
}

scan_sound :
    (os : List Other) (skip : List ℕ) (left port p : ℕ)
    → scan os skip left port ≡ some p
    → (port ≤ p) × (p < port + left) × (is_used p os ≡ false) × (includes skip p ≡ false)
unfolding scan
scan_sound os skip zero port p h = cc
scan_sound os skip (suc left) port p h = ground (arith, scan_sound os skip left (suc port) p)

-- The port found is the lowest that is neither used nor skipped.
scan_lowest :
    (os : List Other) (skip : List ℕ) (left port q : ℕ)
    → port ≤ q
    → q < port + left
    → is_used q os ≡ false
    → includes skip q ≡ false
    → (p : ℕ) × (scan os skip left port ≡ some p) × (p ≤ q)
unfolding scan
scan_lowest os skip zero port q a b u s = absurd (omega arith)
scan_lowest os skip (suc left) port q a b u s =
    elim (Bool-cases (not (is_used port os) && not (includes skip port))) [
      | inl here ↦ (port, rw here, a)
      | inr no_ ↦ rw no_ (scan_lowest os skip left (suc port) q (ground arith) (omega arith) u s)
    ]

rival_of_unused : (port : ℕ) (os : List Other) → is_used port os ≡ false → rival port os ≡ none
unfolding is_used rival
rival_of_unused port [] h = refl
rival_of_unused port (o ∷ os) h = ground (arith, rival_of_unused port os)

module _ (range_start range_end id : ℕ) (world : World) where
  -- A port was claimed at the read `n`: it is in range, no other unfinished deployment held it at
  -- the scan, the check after the write found no rival with a lower id, and it could be bound.
  pub record ClaimedAt (n p : ℕ) : Type 0 where
    pub from_start : range_start ≤ p
    pub to_end : p ≤ range_end
    pub unused : is_used p (world.others n) ≡ false
    pub won : wins id (rival p (world.others (suc n))) ≡ true
    pub bindable : world.probe (suc n) p ≡ true

  scan_range :
      (n : ℕ) (skip : List ℕ) (p : ℕ)
      → find_free_port range_start range_end id world n skip ≡ some p
      → (range_start ≤ p)
        × (p ≤ range_end)
        × (is_used p (world.others n) ≡ false)
        × (includes skip p ≡ false)
  unfolding find_free_port
  scan_range n skip p h =
      let (a, b, u, s) =
        scan_sound (world.others n) skip (suc range_end - range_start) range_start p h in
      (a, omega arith, u, s)

  attempts_claim :
      (n : ℕ) (skip : List ℕ) (port p : ℕ) (own' : Option ℕ)
      → find_free_port range_start range_end id world n skip ≡ some port
      → wins id (rival port (world.others (suc n))) ≡ true
      → world.probe (suc n) port ≡ true
      → port ≡ p
      → some port ≡ own'
      → (own' ≡ some p) × (includes skip p ≡ false) × ((k : ℕ) × ClaimedAt k p)
  attempts_claim n skip port p own' found won free e o =
      let (a, b, u, s) = scan_range n skip port found in
      let at : ClaimedAt n port = record {
        from_start = a;
        to_end = b;
        unused = u;
        won = won;
        bindable = free;
      } in
      (cc, rw e at s, (n, rw e at at))

  skipped :
      (port p : ℕ) (skip : List ℕ) (own' : Option ℕ)
      → (own' ≡ some p) × (includes (port ∷ skip) p ≡ false) × ((k : ℕ) × ClaimedAt k p)
      → (own' ≡ some p) × (includes skip p ≡ false) × ((k : ℕ) × ClaimedAt k p)
  skipped port p skip own' (o, s, c) = (o, ground arith, c)

  attempts_sound :
      (left n : ℕ) (skip : List ℕ) (own : Option ℕ) (p : ℕ) (own' : Option ℕ)
      → attempts range_start range_end id world left n skip own ≡ (claimed p, own')
      → (own' ≡ some p) × (includes skip p ≡ false) × ((k : ℕ) × ClaimedAt k p)
  unfolding attempts
  attempts_sound zero n skip own p own' h = cc
  attempts_sound (suc left) n skip own p own' h =
      elim (Option-cases (find_free_port range_start range_end id world n skip)) [
        | inl full ↦ let h' = rw (full, attempts) at h in cc
        | inr (port, found) ↦ elim (Bool-cases (wins id (rival port (world.others (suc n))))) [
          | inl won ↦ elim (Bool-cases (world.probe (suc n) port)) [
            | inl free ↦
                let h' = rw (found, won, free, attempts) at h in
                attempts_claim n skip port p own' found won free (ground arith) (ground arith)
            | inr busy ↦ skipped port p skip own' (
                attempts_sound left (suc (suc n)) (port ∷ skip) none p own'
                  (rw (found, won, busy, attempts) at h))
          ]
          | inr lost ↦
              attempts_sound left (suc (suc n)) skip none p own' (rw (found, lost, attempts) at h)
        ]
      ]

  attempts_refused :
      (left n : ℕ) (skip : List ℕ) (own own' : Option ℕ) (e : Outcome)
      → attempts range_start range_end id world left n skip own ≡ (e, own')
      → ((p : ℕ) × (e ≡ claimed p))
        ⊎ ((own' ≡ none)
            ⊎ ((own' ≡ own)
                × ((left ≡ 0) ⊎ (find_free_port range_start range_end id world n skip ≡ none))))
  unfolding attempts
  attempts_refused zero n skip own own' e h = inr (inr (cc, inl refl))
  attempts_refused (suc left) n skip own own' e h =
      elim (Option-cases (find_free_port range_start range_end id world n skip)) [
        | inl full ↦ let h' = rw (full, attempts) at h in inr (inr (cc, inr full))
        | inr (port, found) ↦ elim (Bool-cases (wins id (rival port (world.others (suc n))))) [
          | inl won ↦ elim (Bool-cases (world.probe (suc n) port)) [
            | inl free ↦ let h' = rw (found, won, free, attempts) at h in inl (port, cc)
            | inr busy ↦ dropped (
                attempts_refused left (suc (suc n)) (port ∷ skip) none own' e
                  (rw (found, won, busy, attempts) at h))
          ]
          | inr lost ↦ dropped (
              attempts_refused left (suc (suc n)) skip none own' e
                (rw (found, lost, attempts) at h))
        ]
      ]
    where
      dropped :
          {P Q : Type 0}
          → P ⊎ ((own' ≡ none) ⊎ ((own' ≡ none) × Q))
          → P
            ⊎ ((own' ≡ none)
                ⊎ ((own' ≡ own)
                    × ((suc left ≡ 0)
                        ⊎ (find_free_port range_start range_end id world n skip ≡ none))))
      dropped (inl p) = inl p
      dropped (inr (inl z)) = inr (inl z)
      dropped (inr (inr (z, q))) = inr (inl z)

  -- A returned port is written to the deployment's own record and was claimed at some read.
  pub allocate_port_sound :
      (own : Option ℕ) (p : ℕ) (own' : Option ℕ)
      → allocate_port range_start range_end id world own ≡ (claimed p, own')
      → (own' ≡ some p) × ((n : ℕ) × ClaimedAt n p)
  unfolding allocate_port
  allocate_port_sound own p own' h =
      let (o, _, c) = attempts_sound max_claim_attempts 0 [] own p own' h in (o, c)

  -- When no port is returned, the record holds no port, or the very first scan found none and the
  -- record is as it was.
  pub allocate_port_refused :
      (own own' : Option ℕ) (e : Outcome)
      → allocate_port range_start range_end id world own ≡ (e, own')
      → ((p : ℕ) × (e ≡ claimed p))
        ⊎ ((own' ≡ none)
            ⊎ ((own' ≡ own) × (find_free_port range_start range_end id world 0 [] ≡ none)))
  unfolding allocate_port
  allocate_port_refused own own' e h =
      elim (attempts_refused max_claim_attempts 0 [] own own' e h) [
        | inl c ↦ inl c
        | inr (inl z) ↦ inr (inl z)
        | inr (inr (o, inl z)) ↦ absurd (omega arith)
        | inr (inr (o, inr f)) ↦ inr (inr (o, f))
      ]

  -- If the first scan and the check after it find the same deployments, and every port can be
  -- bound, the first attempt claims the lowest port of the range that no unfinished deployment
  -- holds, whenever there is one.
  pub allocate_port_quiet :
      (own : Option ℕ) (q : ℕ)
      → world.others 1 ≡ world.others 0
      → ((p : ℕ) → world.probe 1 p ≡ true)
      → range_start ≤ q
      → q ≤ range_end
      → is_used q (world.others 0) ≡ false
      → (p : ℕ) × (allocate_port range_start range_end id world own ≡ (claimed p, some p))
        × (p ≤ q)
        × (is_used p (world.others 0) ≡ false)
  unfolding allocate_port attempts find_free_port
  allocate_port_quiet own q same probes a b u =
      let (p, found, le) =
        scan_lowest (world.others 0) [] (suc range_end - range_start) range_start q a (omega arith)
          u refl in
      let (_, _, free, _) =
        scan_sound (world.others 0) [] (suc range_end - range_start) range_start p found in
      let alone : rival p (world.others 1) ≡ none =
        rw same (rival_of_unused p (world.others 0) free) in
      (p, rw (found, attempts) (rw (alone, attempts) (rw (probes p, attempts) refl)), le, free)
