-- ===== src/Contracts/Strategies/Roots.antt =====
-- The application roots that packages/contracts/src/build-strategies.js accepts.
use hello_deploy.Prelude.{
  ℕ, zero, suc, ◌+◌, ◌≤◌, ◌≡◌, refl, arith, Bool, false, ◌||◌, ltb, ◌==◌, if◌then◌else◌, Bool-cases,
  inl, inr, Option, none, some, List, [], ◌∷◌, any, length, Text, text_eq, text_eq_iff, codes,
  starts_with, has_piece,
}
use hello_deploy.Contracts.Strategies.{
  bad_length, not_posix, not_normalized, has_traversal, is_forbidden, ends_with_slash, split,
  is_dot, is_dot_dot, is_redundant, validate_application_root,
}

-- Following path segments from a directory `depth` levels below the top: none where it leaves it.
unfoldable pub follow : ℕ → List Text → Option ℕ
follow depth [] = some depth
follow zero (s ∷ ss) =
    let stay = follow zero ss in
    let down = follow 1 ss in
    if is_dot_dot s then none else if text_eq s [] || is_dot s then stay else down
follow (suc d) (s ∷ ss) =
    let up = follow d ss in
    let stay = follow (suc d) ss in
    let down = follow (suc (suc d)) ss in
    if is_dot_dot s then up else if text_eq s [] || is_dot s then stay else down

follow_plain :
    (depth : ℕ) (ss : List Text)
    → any is_redundant ss ≡ false
    → follow depth ss ≡ some (depth + length ss)
unfolding follow
follow_plain depth [] h = ground arith
follow_plain zero (s ∷ ss) h = ground (arith, follow_plain 1 ss)
follow_plain (suc d) (s ∷ ss) h = ground (arith, follow_plain (suc (suc d)) ss)

follow_dot : (depth : ℕ) → follow depth (split (codes ".")) ≡ some depth
unfolding follow split text_eq
follow_dot zero = refl
follow_dot (suc d) = refl

accepted_parts :
    (n : ℕ) (forbidden slashes dot redundant : Bool)
    → dot ≡ false
    → (if n == 0 || ltb 255 n
        then some bad_length
        else if forbidden
        then some not_posix
        else if slashes
        then some not_normalized
        else if dot
        then none
        else if redundant
        then some has_traversal
        else none)
      ≡ none
    → (1 ≤ n) × (n ≤ 255) × (forbidden ≡ false) × (redundant ≡ false)
accepted_parts n forbidden slashes dot redundant d h =
    (ground arith, ground arith, ground arith, ground arith)

-- An accepted root has from 1 to 255 characters, no control character and no backslash, and leads
-- from any directory to one below it, as many levels down as it has segments (or, for a single
-- dot, to the directory itself): on the way it never goes up.
pub application_root_stays_below :
    (value : Text) (depth : ℕ)
    → validate_application_root value ≡ none
    → (1 ≤ length value)
      × (length value ≤ 255)
      × (any is_forbidden value ≡ false)
      × (follow depth (split value)
          ≡ some (if is_dot value then depth else depth + length (split value)))
unfolding validate_application_root text_eq
application_root_stays_below value depth h = elim (Bool-cases (is_dot value)) [
  | inl dot ↦
      let one : value ≡ codes "." = (text_eq_iff value (codes ".")).0 dot in
      rw one (omega arith, omega arith, refl, follow_dot depth)
  | inr other ↦
      let (short, long, plain, inside) =
        accepted_parts (length value) (any is_forbidden value)
          (starts_with value (codes "/") || ends_with_slash value || has_piece value (codes "//"))
          (is_dot value) (any is_redundant (split value)) other h in
      (short, long, plain, rw other (follow_plain depth (split value) inside))
]
