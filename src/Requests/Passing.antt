-- ===== src/Requests/Passing.antt =====
-- Chains of checks of apps/web/src/services/deployment.service.js: what holds where a check passes.
use mathlib.Core.Path.{subst}
use hello_deploy.Prelude.{◌≡◌, refl, ap, arith, Bool, true, false, not, Option, none, some}
use hello_deploy.Requests.Readiness.{Refusal}
use hello_deploy.Requests.{
  Checked, passed, refused, ◌>>=◌, ◌>>◌, require, require_some, refuse_if_some,
}

-- A condition on what a check passes on.
pub data Passes {A : Type 0} (P : A → Type 0) : Checked A → Type 0 where
  passes : {a : A} → P a → Passes P (passed a)
  stops : {r : Refusal} → Passes P (refused r)

pub >>=-Passes :
    {A B : Type 0} {P : B → Type 0} (m : Checked A) (f : A → Checked B)
    → ((a : A) → m ≡ passed a → Passes P (f a))
    → Passes P (m >>= f)
unfolding ◌>>=◌
>>=-Passes (passed a) f h = h a refl
>>=-Passes (refused r) f h = stops

abbrev pub value : {A : Type 0} → A → Checked A → A
value d (passed a) = a
value d (refused r) = d

pub Passes_inv :
    {A : Type 0} {P : A → Type 0} (m : Checked A) (a : A) → Passes P m → m ≡ passed a → P a
Passes_inv {A} {P} (passed b) a (Passes.passes h) e = subst P (ap (value b) e) h
Passes_inv (refused r) a Passes.stops e = cc

pub require_inv : (b : Bool) (r : Refusal) {t : Unit {0}} → require b r ≡ passed t → b ≡ true
require_inv true r e = refl
require_inv false r e = cc

pub require_some_inv :
    {A : Type 0} (o : Option A) (r : Refusal) {a : A} → require_some o r ≡ passed a → o ≡ some a
require_some_inv none r e = cc
require_some_inv (some b) r {a} e = ap some (ap (value b) e)

pub refuse_if_some_inv :
    (o : Option Refusal) {t : Unit {0}} → refuse_if_some o ≡ passed t → o ≡ none
refuse_if_some_inv none e = refl
refuse_if_some_inv (some r) e = cc

pub not_inv : (b : Bool) → not b ≡ true → b ≡ false
not_inv b e = ground arith

pub two_refusals_inv :
    (x y : Option Refusal) {t : Unit {0}}
    → (refuse_if_some x >> refuse_if_some y) ≡ passed t
    → (x ≡ none) × (y ≡ none)
unfolding ◌>>=◌
two_refusals_inv none none e = (refl, refl)
two_refusals_inv none (some r) e = cc
two_refusals_inv (some r) y e = cc
