-- ===== src/Prelude/Codes.antt =====
-- Text that the program walks: the list of its UTF-16 code units. (Text that it only compares is a
-- native `String`.)
use Prim.Native.Nat.{ℕ}
use Prim.Native.Char.{code}
use Prim.Native.String.{String}
use mathlib.Core.Path.{◌≡◌}
use mathlib.Core.Logic.{◌↔◌}
use mathlib.Core.Bool.{Bool, true, false, ◌&&◌, ◌||◌}
use mathlib.Core.List.{List, [], ◌∷◌}
use native.Mathlib.Omega.{arith}
use hello_deploy.Prelude.Tests.{leb, ◌==◌, if◌then◌else◌}
use hello_deploy.Prelude.Equality.{Eq}

abbrev pub Text : Type 0
Text = List ℕ

-- A text literal as code units; its characters are ASCII.
abbrev pub codes : String → Text
codes String.[] = []
codes (String.◌∷◌ c s) = code c ∷ codes s

unfoldable pub text_eq : Text → Text → Bool
text_eq [] [] = true
text_eq (a ∷ s) (b ∷ t) = a == b && text_eq s t
text_eq _ _ = false

pub text_eq_iff : (s t : Text) → (text_eq s t ≡ true) ↔ (s ≡ t)
unfolding text_eq
text_eq_iff [] [] = ground arith
text_eq_iff [] (b ∷ t) = ground arith
text_eq_iff (a ∷ s) [] = ground arith
text_eq_iff (a ∷ s) (b ∷ t) = ground (arith, text_eq_iff s t)

instance abbrev pub Text-eq : Eq Text
Text-eq = record { beq = text_eq; beq_iff = text_eq_iff }

abbrev pub is_lower : ℕ → Bool
is_lower c = leb b'a' c && leb c b'z'

abbrev pub is_upper : ℕ → Bool
is_upper c = leb b'A' c && leb c b'Z'

abbrev pub is_digit : ℕ → Bool
is_digit c = leb b'0' c && leb c b'9'

-- `text.startsWith(prefix)`
unfoldable pub starts_with : Text → Text → Bool
starts_with t [] = true
starts_with [] (p ∷ ps) = false
starts_with (c ∷ cs) (p ∷ ps) = c == p && starts_with cs ps

-- `text.includes(piece)`
unfoldable pub has_piece : Text → Text → Bool
has_piece [] piece = starts_with [] piece
has_piece (c ∷ cs) piece = starts_with (c ∷ cs) piece || has_piece cs piece

-- `text.split(mark)[0]`
unfoldable pub before : ℕ → Text → Text
before mark [] = []
before mark (c ∷ cs) = let rest = before mark cs in if c == mark then [] else c ∷ rest
