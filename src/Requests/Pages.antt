-- ===== src/Requests/Pages.antt =====
-- apps/web/src/services/deployment.service.js: the pages of a project's deployments.
use native.Mathlib.Nat.{div-mul-le_self, mul-le-mul_right, lt-div-mul-add}
use hello_deploy.Prelude.{
  ℕ, zero, suc, ◌+◌, ◌-◌, ◌*◌, ◌/◌, ◌≤◌, ◌<◌, max, min, ◌≡◌, refl, sym, ◌∙◌, ap, arith, List, [],
  ◌∷◌, ◌++◌, length, take, drop, length-take, length-drop,
}

-- What `Number.parseInt` makes of a query parameter.
pub data Parsed : Type 0 where
  not_a_number below_zero : Parsed
  natural : ℕ → Parsed

-- `Math.max(1, Number.parseInt(value, 10) || standard)`
unfoldable pub at_least_one : ℕ → Parsed → ℕ
at_least_one standard not_a_number = max 1 standard
at_least_one standard below_zero = 1
at_least_one standard (natural zero) = max 1 standard
at_least_one standard (natural (suc n)) = max 1 (suc n)

pub record Page (A : Type 0) : Type 0 where
  pub deployments : List A
  pub total : ℕ
  pub page : ℕ
  pub limit : ℕ
  pub total_pages : ℕ

-- `Math.max(1, Math.ceil(total / safeLimit))`
unfoldable pub count_pages : ℕ → ℕ → ℕ
count_pages total limit = max 1 ((total + (limit - 1)) / limit)

-- The page that is asked for of what the query finds, newest first.
unfoldable pub get_deployments_paginated : {A : Type 0} → List A → Parsed → Parsed → Page A
get_deployments_paginated found page limit =
    let safe_limit = at_least_one 20 limit in
    let requested_page = at_least_one 1 page in
    let total = length found in
    let total_pages = count_pages total safe_limit in
    let safe_page = min requested_page total_pages in
    let skip = (safe_page - 1) * safe_limit in
    record {
      deployments = take safe_limit (drop skip found);
      total = total;
      page = safe_page;
      limit = safe_limit;
      total_pages = total_pages;
    }

at_least_one_bound : (standard : ℕ) (p : Parsed) → 1 ≤ at_least_one standard p
unfolding at_least_one
at_least_one_bound standard not_a_number = omega arith
at_least_one_bound standard below_zero = omega arith
at_least_one_bound standard (natural zero) = omega arith
at_least_one_bound standard (natural (suc n)) = omega arith

max_one : (q : ℕ) → max 1 (suc q) ≡ suc q
max_one q = omega arith

pred_suc : (q : ℕ) → suc q - 1 ≡ q
pred_suc q = omega arith

module _ (total limit : ℕ) where
  quotient_enough :
      (q : ℕ) → total + (limit - 1) < q * limit + limit → 1 ≤ limit → total ≤ max 1 q * limit
  quotient_enough zero h k = omega (arith, h, k)
  quotient_enough (suc q) h k = rw (max_one q) (omega (arith, h, k))

  quotient_needed :
      (q : ℕ)
      → q * limit ≤ total + (limit - 1)
      → 1 ≤ limit
      → 1 ≤ total
      → (max 1 q - 1) * limit < total
  quotient_needed zero h k t = omega (arith, h, k, t)
  quotient_needed (suc q) h k t = rw (max_one q, pred_suc q) (omega (arith, h, k, t))

  -- The pages hold everything.
  pages_enough : 1 ≤ limit → total ≤ count_pages total limit * limit
  unfolding count_pages
  pages_enough k =
      quotient_enough ((total + (limit - 1)) / limit)
        (lt-div-mul-add {a = total + (limit - 1)} {b = limit} k) k

  -- All pages but one do not.
  pages_needed : 1 ≤ limit → 1 ≤ total → (count_pages total limit - 1) * limit < total
  unfolding count_pages
  pages_needed k t =
      quotient_needed ((total + (limit - 1)) / limit) (div-mul-le_self (total + (limit - 1)) limit)
        k t

-- What is left for a page that exists.
filled :
    (total limit page : ℕ)
    → page ≤ count_pages total limit
    → 1 ≤ limit
    → min 1 total ≤ min limit (total - (page - 1) * limit)
filled zero limit page h k = omega arith
filled (suc n) limit page h k =
    let before =
      mul-le-mul_right {m = page - 1} {n = count_pages (suc n) limit - 1} limit
        (omega (arith, h)) in
    omega (arith, k, before, pages_needed (suc n) limit k (omega arith))

module _ {A : Type 0} where
  take-all : (n : ℕ) (xs : List A) → length xs ≤ n → take n xs ≡ xs
  take-all zero [] h = refl
  take-all zero (x ∷ xs) h = absurd (omega (arith, h))
  take-all (suc n) [] h = refl
  take-all (suc n) (x ∷ xs) h = ap (λ r. x ∷ r) (take-all n xs (omega (arith, h)))

  take_same : {n m : ℕ} (xs : List A) → n ≡ m → take n xs ≡ take m xs
  take_same xs e = ap (λ k. take k xs) e

  take_nil : (n : ℕ) → take {A = A} n [] ≡ []
  take_nil zero = refl
  take_nil (suc n) = refl

  take-add : (n m : ℕ) (xs : List A) → take n xs ++ take m (drop n xs) ≡ take (n + m) xs
  take-add zero m xs = take_same xs (omega arith)
  take-add (suc n) m [] = take_nil m ∙ sym (take_nil (suc n + m))
  take-add (suc n) m (x ∷ xs) =
      ap (λ r. x ∷ r) (take-add n m xs)
      ∙ take_same {n = suc (n + m)} {m = suc n + m} (x ∷ xs) (omega arith)

  page_at :
      (found : List A) (limit : Parsed) (k : ℕ)
      → suc k ≤ count_pages (length found) (at_least_one 20 limit)
      → (get_deployments_paginated found (natural (suc k)) limit).deployments
        ≡ take (at_least_one 20 limit) (drop (k * at_least_one 20 limit) found)
  unfolding get_deployments_paginated at_least_one
  page_at found limit k h =
      ap (λ i. take (at_least_one 20 limit) (drop (i * at_least_one 20 limit) found))
        (omega (arith, h))

  -- The first `k` pages, one after the other.
  unfoldable pub first_pages : List A → Parsed → ℕ → List A
  first_pages found limit zero = []
  first_pages found limit (suc k) =
      first_pages found limit k
      ++ (get_deployments_paginated found (natural (suc k)) limit).deployments

  first_pages-take :
      (found : List A) (limit : Parsed) (k : ℕ)
      → k ≤ count_pages (length found) (at_least_one 20 limit)
      → first_pages found limit k ≡ take (k * at_least_one 20 limit) found
  unfolding first_pages
  first_pages-take found limit zero h =
      take_same {n = 0} {m = 0 * at_least_one 20 limit} found (omega arith)
  first_pages-take found limit (suc k) h =
      let l = at_least_one 20 limit in
      rw (first_pages-take found limit k (omega (arith, h)), page_at found limit k h)
        (take-add (k * l) l found ∙ take_same found (omega arith))

-- For any parameters, the pages from the first to the last that a page reports are together, in their
-- order, exactly what the query finds.
pub pages_partition :
    {A : Type 0} (found : List A) (page limit : Parsed)
    → first_pages found limit (get_deployments_paginated found page limit).total_pages ≡ found
unfolding get_deployments_paginated
pages_partition found page limit =
    first_pages-take found limit (count_pages (length found) (at_least_one 20 limit)) (omega arith)
    ∙ take-all _ found (pages_enough (length found) _ (at_least_one_bound 20 limit))

pub record IsPage {A : Type 0} (found : List A) (p : Page A) : Type 0 where
  pub from_one : 1 ≤ p.page
  pub to_last : p.page ≤ p.total_pages
  pub within_limit : length p.deployments ≤ p.limit
  pub filled : min 1 (length found) ≤ length p.deployments

-- For any parameters the page is from 1 to the number of pages, holds at most the limit of
-- deployments, and holds at least one where the query finds one.
pub paginated-IsPage :
    {A : Type 0} (found : List A) (page limit : Parsed)
    → IsPage found (get_deployments_paginated found page limit)
unfolding get_deployments_paginated count_pages
paginated-IsPage found page limit =
    let l = at_least_one 20 limit in
    let page_bound = at_least_one_bound 1 page in
    let safe_page = min (at_least_one 1 page) (count_pages (length found) l) in
    let rest = drop ((safe_page - 1) * l) found in
    record {
      from_one = omega (arith, page_bound);
      to_last = omega arith;
      within_limit = omega (arith, length-take l rest);
      filled =
          rw (length-take l rest, length-drop ((safe_page - 1) * l) found)
            (filled (length found) l safe_page (omega arith) (at_least_one_bound 20 limit));
    }
