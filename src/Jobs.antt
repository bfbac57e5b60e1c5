-- ===== src/Jobs.antt =====
-- A job of the worker as a chain of stages, each of which may end it, and what holds after a stage.
pub mod Requirements
use hello_deploy.Prelude.{◌≡◌, refl, Bool, true, false, if◌then◌else◌}

-- `O` is how a job ends, `S` its state.
pub data Stage (O S A : Type 0) : Type 0 where
  next : A → S → Stage O S A
  ended : O → S → Stage O S A

abbrev pub Job : Type 0 → Type 0 → Type 0 → Type 0
Job O S A = S → Stage O S A

infixl 5 ◌>>=◌ ◌>>◌
unfoldable pub ◌>>=◌ : {O S A B : Type 0} → Job O S A → (A → Job O S B) → Job O S B
◌>>=◌ m f s = elim (m s) [ next a t ↦ f a t | ended o t ↦ ended o t ]

abbrev pub ◌>>◌ : {O S B : Type 0} → Job O S (Unit {0}) → Job O S B → Job O S B
m >> k = m >>= λ _. k

-- One condition where the stage ends the job, another where it goes on.
pub data After {O S A : Type 0} (E : O → S → Type 0) (Q : A → S → Type 0)
    : Stage O S A → Type 0 where
  goes : {a : A} {s : S} → Q a s → After E Q (next a s)
  ends : {o : O} {s : S} → E o s → After E Q (ended o s)

module _ {O S : Type 0} {E : O → S → Type 0} where
  pub >>=-After :
      {A B : Type 0} {Q : A → S → Type 0} {R : B → S → Type 0} (m : Job O S A) (f : A → Job O S B)
      (s : S)
      → After E Q (m s)
      → ((a : A) (t : S) → Q a t → After E R (f a t))
      → After E R ((m >>= f) s)
  unfolding ◌>>=◌
  >>=-After {A} {B} {Q} {R} m f s h k = by_stage (m s) h
    where
      by_stage :
          (x : Stage O S A)
          → After E Q x
          → After E R (elim x [ next a t ↦ f a t | ended o t ↦ ended o t ])
      by_stage (next a t) (After.goes h) = k a t h
      by_stage (ended o t) (After.ends h) = After.ends h

  -- Each branch may use the test's answer.
  pub if-After :
      {A : Type 0} {Q : A → S → Type 0} (b : Bool) {x y : Stage O S A}
      → (b ≡ true → After E Q x)
      → (b ≡ false → After E Q y)
      → After E Q (if b then x else y)
  if-After true p q = p refl
  if-After false p q = q refl
