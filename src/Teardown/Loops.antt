-- ===== src/Teardown/Loops.antt =====
-- The loops of apps/worker/src/jobs/delete-project.job.js: what is removed and what is left.
use mathlib.Core.List.{Memᴰ}
use hello_deploy.Prelude.{
  ◌≡◌, refl, sym, ◌∙◌, ap, Bool, true, not, ◌⊎◌, inl, inr, some, List, [], ◌∷◌, keep_if, Text,
  text_eq, text_eq_iff, Bool-cases,
}
use hello_deploy.Teardown.{Resource, unique, remove_each, first_of}

pub keep_if-passing :
    (p : Text → Bool) (xs : List Text) {x : Text} → Memᴰ x xs → p x ≡ true → Memᴰ x (keep_if p xs)
keep_if-passing p [] m e = elim m [ ]
keep_if-passing p (y ∷ ys) (Memᴰ.head q) e = rw (ap p (sym q) ∙ e) (Memᴰ.head q)
keep_if-passing p (y ∷ ys) (Memᴰ.tail m) e = elim (Bool-cases (p y)) [
  | inl t ↦ rw t (Memᴰ.tail (keep_if-passing p ys m e))
  | inr t ↦ rw t (keep_if-passing p ys m e)
]

pub unique_mem : (xs : List Text) {x : Text} → Memᴰ x xs → Memᴰ x (unique xs)
unfolding unique
unique_mem [] m = elim m [ ]
unique_mem (y ∷ ys) (Memᴰ.head q) = Memᴰ.head q
unique_mem (y ∷ ys) {x} (Memᴰ.tail m) = elim (Bool-cases (text_eq x y)) [
  | inl t ↦ Memᴰ.head ((text_eq_iff x y).0 t)
  | inr t ↦ Memᴰ.tail (keep_if-passing _ (unique ys) (unique_mem ys m) (ap not t))
]

module _ (removes : Resource → Bool) (kind : Text → Resource) where
  pub remove_each_keeps :
      (xs : List Text) (removed : List Resource) {r : Resource}
      → Memᴰ r removed
      → Memᴰ r (remove_each removes kind xs removed).1
  unfolding remove_each
  remove_each_keeps [] removed m = m
  remove_each_keeps (x ∷ xs) removed m = elim (Bool-cases (removes (kind x))) [
    | inl t ↦ rw (t, remove_each) (remove_each_keeps xs (kind x ∷ removed) (Memᴰ.tail m))
    | inr t ↦ rw (t, remove_each) (remove_each_keeps xs removed m)
  ]

  pub remove_each_mem :
      (xs : List Text) (removed : List Resource) {x : Text}
      → Memᴰ x xs
      → (let (left, after) = remove_each removes kind xs removed in
          Memᴰ (kind x) after ⊎ Memᴰ x left)
  unfolding remove_each
  remove_each_mem [] removed m = elim m [ ]
  remove_each_mem (y ∷ ys) removed (Memᴰ.head q) = elim (Bool-cases (removes (kind y))) [
    | inl t ↦
        rw (t, remove_each) (inl (remove_each_keeps ys (kind y ∷ removed) (Memᴰ.head (ap kind q))))
    | inr t ↦ rw (t, remove_each) (inr (Memᴰ.head q))
  ]
  remove_each_mem (y ∷ ys) removed (Memᴰ.tail m) = elim (Bool-cases (removes (kind y))) [
    | inl t ↦ rw (t, remove_each) (remove_each_mem ys (kind y ∷ removed) m)
    | inr t ↦
        rw (t, remove_each)
          (elim (remove_each_mem ys removed m) [ inl k ↦ inl k | inr k ↦ inr (Memᴰ.tail k) ])
  ]

  -- One resource alone is removed, or left.
  pub remove_one :
      (xs : List Text) (removed : List Resource) (x : Text)
      → xs ≡ x ∷ []
      → (let (left, after) = remove_each removes kind xs removed in
          Memᴰ (kind x) after ⊎ (first_of left ≡ some x))
  unfolding remove_each
  remove_one xs removed x e = rw e (elim (Bool-cases (removes (kind x))) [
    | inl t ↦ rw (t, remove_each) (inl (Memᴰ.head refl))
    | inr t ↦ rw (t, remove_each) (inr refl)
  ])
