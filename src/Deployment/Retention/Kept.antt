-- ===== src/Deployment/Retention/Kept.antt =====
-- Which releases `cleanupOldReleases` of apps/worker/src/deployment/retention.js leaves alone.
use mathlib.Core.List.{Memᴰ}
use hello_deploy.Prelude.{
  ap, max, ℕ, zero, suc, ◌≤◌, ◌≡◌, refl, arith, true, leb, Bool-cases, inl, inr, Option, List, [],
  ◌∷◌, take, drop, keep_if, length, All, All-at, drop_mem, keep_if_mem, keep_if_passes,
}
use hello_deploy.Deployment.Retention.{
  Release, insert_desc, sort_desc, is_healthy_of, healthy_releases, is_not, to_clean,
  release_keep_count,
}

abbrev pub NoNewer : Release → Release → Type 0
NoNewer r x = x.sequence_number ≤ r.sequence_number

abbrev pub IsDesc : List Release → Type 0
IsDesc [] = Unit
IsDesc (x ∷ xs) = All (NoNewer x) xs × IsDesc xs

module _ {κ} (P : Release → Type κ) where
  All-insert_desc : (r : Release) (xs : List Release) → P r → All P xs → All P (insert_desc r xs)
  unfolding insert_desc
  All-insert_desc r [] p h = (p, tt)
  All-insert_desc r (x ∷ xs) p (q, h) =
      elim (Bool-cases (leb x.sequence_number r.sequence_number)) [
        | inl le ↦ rw le (p, (q, h))
        | inr gt ↦ rw gt (q, All-insert_desc r xs p h)
      ]

  All-sort_desc : (xs : List Release) → All P xs → All P (sort_desc xs)
  unfolding sort_desc
  All-sort_desc [] h = tt
  All-sort_desc (x ∷ xs) (p, h) = All-insert_desc x (sort_desc xs) p (All-sort_desc xs h)

All-NoNewer :
    (r x : Release) (xs : List Release) → NoNewer r x → All (NoNewer x) xs → All (NoNewer r) xs
All-NoNewer r x [] p h = tt
All-NoNewer r x (y ∷ ys) p (q, h) = (omega arith, All-NoNewer r x ys p h)

insert_desc-IsDesc : (r : Release) (xs : List Release) → IsDesc xs → IsDesc (insert_desc r xs)
unfolding insert_desc
insert_desc-IsDesc r [] h = (tt, tt)
insert_desc-IsDesc r (x ∷ xs) (p, h) = elim (Bool-cases (leb x.sequence_number r.sequence_number)) [
  | inl le ↦ let q : NoNewer r x = ground arith in rw le ((q, All-NoNewer r x xs q p), (p, h))
  | inr gt ↦ rw gt (All-insert_desc (NoNewer x) r xs (ground arith) p, insert_desc-IsDesc r xs h)
]

sort_desc-IsDesc : (xs : List Release) → IsDesc (sort_desc xs)
unfolding sort_desc
sort_desc-IsDesc [] = tt
sort_desc-IsDesc (x ∷ xs) = insert_desc-IsDesc x (sort_desc xs) (sort_desc-IsDesc xs)

-- What is dropped from a descending list is no newer than what is taken, and then the whole
-- number was taken.
take_newer :
    (n : ℕ) (xs : List Release) (r : Release)
    → IsDesc xs
    → Memᴰ r (drop n xs)
    → (length (take n xs) ≡ n) × All (λ k. NoNewer k r) (take n xs)
take_newer zero xs r h m = (refl, tt)
take_newer (suc n) [] r h m = elim m [ ]
take_newer (suc n) (x ∷ xs) r (p, h) m =
    let (l, a) = take_newer n xs r h m in (ap suc l, (All-at (NoNewer x) xs p (drop_mem n xs m), a))

-- A release that is cleaned is a healthy release of the project, is not its active one, and comes
-- after as many healthy releases as the quota keeps (at least one), each with a sequence number no
-- smaller than its own.
pub to_clean_old :
    (project : ℕ) (active : Option ℕ) (quota : ℕ) (records : List Release) (r : Release)
    → Memᴰ r (to_clean project active (release_keep_count quota) records)
    → (is_healthy_of project r ≡ true)
      × (is_not active r ≡ true)
      × (1 ≤ release_keep_count quota)
      × (quota ≤ release_keep_count quota)
      × (length (take (release_keep_count quota) (healthy_releases project records))
          ≡ release_keep_count quota)
      × All
          (λ k. r.sequence_number ≤ k.sequence_number)
          (take (release_keep_count quota) (healthy_releases project records))
unfolding to_clean healthy_releases release_keep_count
to_clean_old project active quota records r m =
    let h = keep_if (is_healthy_of project) records in
    let (late, other) = keep_if_mem (is_not active) (drop (max 1 quota) (sort_desc h)) m in
    let (full, newer) = take_newer (max 1 quota) (sort_desc h) r (sort_desc-IsDesc h) late in
    let healthy =
      All-at (λ x. is_healthy_of project x ≡ true) (sort_desc h)
        (All-sort_desc (λ x. is_healthy_of project x ≡ true) h
          (keep_if_passes (is_healthy_of project) records))
        (drop_mem (max 1 quota) (sort_desc h) late) in
    (healthy, other, omega arith, omega arith, full, newer)
