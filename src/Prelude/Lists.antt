-- ===== src/Prelude/Lists.antt =====
-- Lists measured and indexed by native numbers, under the library's names; tests on all elements.
use Prim.Native.Nat.{ℕ, zero, suc, ◌+◌, ◌-◌, ◌≤◌, min}
use mathlib.Core.Path.{◌≡◌}
use mathlib.Core.Logic.{inl, inr}
use mathlib.Core.Bool.{Bool, true, false, ◌&&◌, ◌||◌}
use mathlib.Core.List.{List, [], ◌∷◌, ◌++◌, Memᴰ}
use native.Mathlib.Omega.{arith}
use hello_deploy.Prelude.Tests.{if◌then◌else◌, Bool-cases}

module _ {ℓ} {A : Type ℓ} where
  abbrev pub length : List A → ℕ
  length [] = 0
  length (x ∷ xs) = suc (length xs)

  abbrev pub take : ℕ → List A → List A
  take zero xs = []
  take (suc n) [] = []
  take (suc n) (x ∷ xs) = x ∷ take n xs

  -- `list.slice(n)`
  abbrev pub drop : ℕ → List A → List A
  drop zero xs = xs
  drop (suc n) [] = []
  drop (suc n) (x ∷ xs) = drop n xs

  abbrev pub any : (A → Bool) → List A → Bool
  any p [] = false
  any p (x ∷ xs) = p x || any p xs

  abbrev pub all : (A → Bool) → List A → Bool
  all p [] = true
  all p (x ∷ xs) = p x && all p xs

  -- `list.filter(p)`
  abbrev pub keep_if : (A → Bool) → List A → List A
  keep_if p [] = []
  keep_if p (x ∷ xs) = let rest = keep_if p xs in if p x then x ∷ rest else rest

  pub length-append : (xs ys : List A) → length (xs ++ ys) ≡ length xs + length ys
  length-append [] ys = omega arith
  length-append (x ∷ xs) ys = omega (arith, length-append xs ys)

  pub length-take : (n : ℕ) (xs : List A) → length (take n xs) ≡ min n (length xs)
  length-take zero xs = omega arith
  length-take (suc n) [] = omega arith
  length-take (suc n) (x ∷ xs) = omega (arith, length-take n xs)

  pub length-drop : (n : ℕ) (xs : List A) → length (drop n xs) ≡ length xs - n
  length-drop zero xs = omega arith
  length-drop (suc n) [] = omega arith
  length-drop (suc n) (x ∷ xs) = omega (arith, length-drop n xs)

  pub length-keep_if : (p : A → Bool) (xs : List A) → length (keep_if p xs) ≤ length xs
  length-keep_if p [] = omega arith
  length-keep_if p (x ∷ xs) = ground (arith, length-keep_if p xs)

-- A predicate on every element, by recursion, which the tactics read and build.
module _ {ℓ κ} {A : Type ℓ} (P : A → Type κ) where
  abbrev pub All : List A → Type κ
  All [] = Unit
  All (x ∷ xs) = P x × All xs

  pub All-append : (xs ys : List A) → All xs → All ys → All (xs ++ ys)
  All-append [] ys _ k = k
  All-append (x ∷ xs) ys (p, h) k = (p, All-append xs ys h k)

  pub All-drop : (n : ℕ) (xs : List A) → All xs → All (drop n xs)
  All-drop zero xs h = h
  All-drop (suc n) [] h = h
  All-drop (suc n) (x ∷ xs) (p, h) = All-drop n xs h

  pub All-keep_if : (t : A → Bool) (xs : List A) → All xs → All (keep_if t xs)
  All-keep_if t [] h = h
  All-keep_if t (x ∷ xs) (p, h) = ground (arith, All-keep_if t xs h)

-- Every element that a filter keeps passes its test.
pub keep_if_passes {ℓ} :
    {A : Type ℓ} (t : A → Bool) (xs : List A) → All (λ x. t x ≡ true) (keep_if t xs)
keep_if_passes t [] = tt
keep_if_passes t (x ∷ xs) = ground (arith, keep_if_passes t xs)

pub All-at {ℓ κ} : {A : Type ℓ} (P : A → Type κ) (xs : List A) {x : A} → All P xs → Memᴰ x xs → P x
All-at P [] h m = elim m [ ]
All-at P (y ∷ ys) h (Memᴰ.head e) = rw e h.0
All-at P (y ∷ ys) h (Memᴰ.tail m) = All-at P ys h.1 m

module _ {ℓ} {A : Type ℓ} where
  pub drop_mem : (n : ℕ) (xs : List A) {x : A} → Memᴰ x (drop n xs) → Memᴰ x xs
  drop_mem zero xs m = m
  drop_mem (suc n) [] m = m
  drop_mem (suc n) (y ∷ ys) m = Memᴰ.tail (drop_mem n ys m)

  pub keep_if_mem :
      (t : A → Bool) (xs : List A) {x : A} → Memᴰ x (keep_if t xs) → Memᴰ x xs × (t x ≡ true)
  keep_if_mem t [] m = elim m [ ]
  keep_if_mem t (y ∷ ys) {x} m = elim (Bool-cases (t y)) [
    | inr e ↦ let (n, p) = keep_if_mem t ys (rw (e, keep_if) at m) in (Memᴰ.tail n, p)
    | inl e ↦ here (λ n. keep_if_mem t ys n) e (rw e at m)
  ]
    where
      here :
          (Memᴰ x (keep_if t ys) → Memᴰ x ys × (t x ≡ true))
          → t y ≡ true
          → Memᴰ x (y ∷ keep_if t ys)
          → Memᴰ x (y ∷ ys) × (t x ≡ true)
      here ih e (Memᴰ.head q) = (Memᴰ.head q, rw q e)
      here ih e (Memᴰ.tail n) = let (k, p) = ih n in (Memᴰ.tail k, p)
