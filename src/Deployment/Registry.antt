-- ===== src/Deployment/Registry.antt =====
-- apps/worker/src/deployment/registry.js: which releases live in the platform's own registry.
use hello_deploy.Prelude.{
  ℕ, Bool, false, ◌&&◌, ◌||◌, ◌==◌, if◌then◌else◌, Option, none, some, [], ◌∷◌, all, is_some, Text,
  codes, text_eq, is_lower, is_digit, has_piece, before,
}

-- `[a-z0-9_.-]`
abbrev pub is_tag_character : ℕ → Bool
is_tag_character c = is_lower c || is_digit c || c == b'_' || c == b'.' || c == b'-'

abbrev pub is_tag : Text → Bool
is_tag [] = false
is_tag (c ∷ cs) = all is_tag_character (c ∷ cs)

-- `.replace(/:[a-z0-9_.-]+$/, '')`
unfoldable pub strip_tag : Text → Text
strip_tag [] = []
strip_tag (c ∷ cs) = let rest = strip_tag cs in if c == b':' && is_tag cs then [] else c ∷ rest

-- `isPlatformImageRef`; an unset `USER_IMAGE_REGISTRY` is the empty text.
unfoldable pub is_platform_image_ref : Text → Text → Bool
is_platform_image_ref [] image_ref = false
is_platform_image_ref (c ∷ cs) image_ref = text_eq (strip_tag (before b'@' image_ref)) (c ∷ cs)

abbrev pub is_pinned : Text → Bool
is_pinned image_ref = has_piece image_ref (codes "@sha256:")

-- `isPlatformRegistryRelease`, on the fields that it reads.
unfoldable pub is_platform_registry_release : Text → Option Text → Option Text → Bool
is_platform_registry_release platform none digest = false
is_platform_registry_release platform (some image_ref) digest =
    is_some digest && is_pinned image_ref && is_platform_image_ref platform image_ref
