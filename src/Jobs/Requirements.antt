-- ===== src/Jobs/Requirements.antt =====
-- A job that requires a list of things in an order, and fails with the first that does not hold.
use hello_deploy.Prelude.{
  ◌≡◌, refl, ◌∙◌, Bool, true, false, Option, none, some, List, [], ◌∷◌, ◌++◌,
}
use hello_deploy.Jobs.{Stage, next, ended, Job, ◌>>=◌, After, goes, ends}

-- Each requirement stands with the code of its failure.
abbrev pub first_failure : {F : Type 0} → List (Bool × F) → Option F
first_failure [] = none
first_failure ((true, code) ∷ rest) = first_failure rest
first_failure ((false, code) ∷ rest) = some code

-- A stage fails with the first of its requirements that does not hold.
abbrev pub Fulfils :
    {O S F A : Type 0}
    → (F → O → S → Type 0)
    → List (Bool × F)
    → (A → S → Type 0)
    → Stage O S A
    → Type 0
Fulfils {F = F} E reqs Q =
    After (λ o t. (code : F) × (first_failure reqs ≡ some code) × E code o t)
      (λ a t. (first_failure reqs ≡ none) × Q a t)

module _ {F : Type 0} where
  first_failure-append_some :
      (reqs rest : List (Bool × F)) (code : F)
      → first_failure reqs ≡ some code
      → first_failure (reqs ++ rest) ≡ some code
  first_failure-append_some [] rest code e = cc
  first_failure-append_some ((true, c) ∷ reqs) rest code e =
      first_failure-append_some reqs rest code e
  first_failure-append_some ((false, c) ∷ reqs) rest code e = e

  first_failure-append_none :
      (reqs rest : List (Bool × F))
      → first_failure reqs ≡ none
      → first_failure (reqs ++ rest) ≡ first_failure rest
  first_failure-append_none [] rest e = refl
  first_failure-append_none ((true, c) ∷ reqs) rest e = first_failure-append_none reqs rest e
  first_failure-append_none ((false, c) ∷ reqs) rest e = cc

module _ {O S F : Type 0} (E : F → O → S → Type 0) where
  pub both :
      {A B : Type 0} (reqs rest : List (Bool × F)) {P : A → S → Type 0} {Q : B → S → Type 0}
      (m : Job O S A) (f : A → Job O S B) (s : S)
      → Fulfils E reqs P (m s)
      → ((a : A) (t : S) → P a t → Fulfils E rest Q (f a t))
      → Fulfils E (reqs ++ rest) Q ((m >>= f) s)
  unfolding ◌>>=◌
  both {A} {B} reqs rest {P} {Q} m f s h k = by_stage (m s) h
    where
      by_stage :
          (x : Stage O S A)
          → Fulfils E reqs P x
          → Fulfils E (reqs ++ rest) Q (elim x [ next a t ↦ f a t | ended o t ↦ ended o t ])
      by_stage (next a t) (After.goes (e, p)) = onward (f a t) (k a t p)
        where
          onward : (y : Stage O S B) → Fulfils E rest Q y → Fulfils E (reqs ++ rest) Q y
          onward (next b u) (After.goes (g, q)) =
              goes (first_failure-append_none reqs rest e ∙ g, q)
          onward (ended o u) (After.ends (code, g, q)) =
              ends (code, first_failure-append_none reqs rest e ∙ g, q)
      by_stage (ended o t) (After.ends (code, e, h)) =
          ends (code, first_failure-append_some reqs rest code e, h)

-- A job that always ends: what its end has to be is decided by the first requirement that does not
-- hold.
abbrev pub Decides :
    {O S F : Type 0} → (Option F → O → S → Type 0) → List (Bool × F) → Stage O S ⊥ → Type 0
Decides V reqs = After (λ o t. V (first_failure reqs) o t) (λ _ _. ⊥)

module _ {O S F : Type 0} (V : Option F → O → S → Type 0) where
  pub then-Decides :
      {A : Type 0} (reqs rest : List (Bool × F)) {P : A → S → Type 0} (m : Job O S A)
      (f : A → Job O S ⊥) (s : S)
      → Fulfils (λ code. V (some code)) reqs P (m s)
      → ((a : A) (t : S) → P a t → Decides V rest (f a t))
      → Decides V (reqs ++ rest) ((m >>= f) s)
  unfolding ◌>>=◌
  then-Decides {A} reqs rest {P} m f s h k = by_stage (m s) h
    where
      by_stage :
          (x : Stage O S A)
          → Fulfils (λ code. V (some code)) reqs P x
          → Decides V (reqs ++ rest) (elim x [ next a t ↦ f a t | ended o t ↦ ended o t ])
      by_stage (next a t) (After.goes (e, p)) = rw (first_failure-append_none reqs rest e) (k a t p)
      by_stage (ended o t) (After.ends (code, e, h)) =
          ends (rw (first_failure-append_some reqs rest code e) h)
