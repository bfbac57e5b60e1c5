-- ===== src/Requests/Conditions.antt =====
-- What single checks of apps/web/src/services/deployment.service.js find out: the commit and the
-- repository of a deployment.
use mathlib.Core.Path.{subst}
use hello_deploy.Contracts.Subdomains.{to_lower_case, trim_start, trim_end}
use hello_deploy.Prelude.{
  ℕ, ◌≡◌, refl, ap, sym, ◌∙◌, ◌&&◌, ◌==◌, if◌then◌else◌, arith, Bool, true, false, Option, none,
  some, is_some, Text,
}
use hello_deploy.Requests.Readiness.{
  repository_inactive, commit_not_verified, no_commit, commit_sha_format,
}
use hello_deploy.Requests.{
  Checked, passed, refused, ◌>>=◌, require, require_some, Surroundings, Original, Target,
  is_rollback_target_eligible, Repository, check_commit, is_full_commit_sha, connected,
  target_commit, retry_commit, is_other,
}
use hello_deploy.Requests.Passing.{value, require_some_inv}

-- The commit that was asked for, if any, as it is read: trimmed, in lower case, and a full one.
pub data IsAsked : Option Text → Option Text → Type 0 where
  nothing : IsAsked none none
  full :
      {raw : Text} (sha : Text)
      → sha ≡ to_lower_case (trim_end (trim_start raw))
      → is_full_commit_sha sha ≡ true
      → IsAsked (some raw) (some sha)

-- The commit to build: GitHub's answer for a public repository, and else the one that was asked for
-- or the last that is known.
pub data IsTarget (w : Surroundings) (repository : Repository) : Option Text → Text → Type 0 where
  verified :
      {asked : Option Text} {sha : Text}
      → repository.is_public ≡ true
      → w.latest_commit asked ≡ some sha
      → IsTarget w repository asked sha
  as_asked : {sha : Text} → repository.is_public ≡ false → IsTarget w repository (some sha) sha
  last_known :
      {sha : Text}
      → repository.is_public ≡ false
      → repository.last_commit_sha ≡ some sha
      → IsTarget w repository none sha

-- The repository is connected and may be read.
pub record IsConnected (w : Surroundings) (repository : Repository) : Type 0 where
  pub present : w.repository ≡ some repository
  pub readable : repository.has_access ≡ true

pub is_some_inv : {A : Type 0} (o : Option A) → is_some o ≡ false → o ≡ none
is_some_inv none e = refl
is_some_inv (some a) e = cc

pub check_commit-IsAsked :
    (commit : Option Text) {asked : Option Text}
    → check_commit commit ≡ passed asked
    → IsAsked commit asked
unfolding check_commit
check_commit-IsAsked none {asked} e = subst (IsAsked none) (ap (value none) e) nothing
check_commit-IsAsked (some raw) {asked} e =
    by_format (is_full_commit_sha (to_lower_case (trim_end (trim_start raw)))) refl e
  where
    by_format :
        (b : Bool)
        → is_full_commit_sha (to_lower_case (trim_end (trim_start raw))) ≡ b
        → (if b
            then passed (some (to_lower_case (trim_end (trim_start raw))))
            else refused commit_sha_format)
          ≡ passed asked
        → IsAsked (some raw) asked
    by_format true f e =
        subst (IsAsked (some raw)) (ap (value none) e)
          (full (to_lower_case (trim_end (trim_start raw))) refl f)
    by_format false f e = cc

pub connected-IsConnected :
    (w : Surroundings) (repository : Repository)
    → connected w ≡ passed repository
    → IsConnected w repository
unfolding ◌>>=◌
connected-IsConnected w repository e = by_access w.repository refl e
  where
    by_access :
        (o : Option Repository)
        → w.repository ≡ o
        → (require_some o repository_inactive >>= λ r.
            require r.has_access repository_inactive >>= λ _. passed r)
          ≡ passed repository
        → IsConnected w repository
    by_access none f e = cc
    by_access (some r) f e = readable r.has_access refl e
      where
        readable :
            (b : Bool)
            → r.has_access ≡ b
            → (require b repository_inactive >>= λ _. passed r) ≡ passed repository
            → IsConnected w repository
        readable true g e =
            let same : r ≡ repository = ap (value r) e in
            record {
              present = f ∙ ap some same;
              readable = ap (λ (x : Repository). x.has_access) (sym same) ∙ g;
            }
        readable false g e = cc

pub target_commit-IsTarget :
    (w : Surroundings) (repository : Repository) (asked : Option Text) (sha : Text)
    → target_commit w repository asked ≡ passed sha
    → IsTarget w repository asked sha
target_commit-IsTarget w repository asked sha e = by_kind repository.is_public refl asked e
  where
    by_kind :
        (b : Bool)
        → repository.is_public ≡ b
        → (a : Option Text)
        → (if b
            then require_some (w.latest_commit a) commit_not_verified
            else require_some
                (elim a [ some sha ↦ some sha | none ↦ repository.last_commit_sha ])
                no_commit)
          ≡ passed sha
        → IsTarget w repository a sha
    by_kind true p a e = verified p (require_some_inv (w.latest_commit a) commit_not_verified e)
    by_kind false p (some x) e =
        subst (IsTarget w repository (some x)) (ap (value x) e) (as_asked p)
    by_kind false p none e = last_known p (require_some_inv repository.last_commit_sha no_commit e)

-- The commit that a retry builds: GitHub's latest, where that is asked for, or the original's.
pub data IsRetried (w : Surroundings) (o : Original) : Bool → Text → Type 0 where
  from_latest : {sha : Text} → w.latest_commit none ≡ some sha → IsRetried w o true sha
  from_original : IsRetried w o false o.commit_sha

pub retry_commit-IsRetried :
    (w : Surroundings) (latest : Bool) (o : Original) (sha : Text)
    → retry_commit w latest o ≡ passed sha
    → IsRetried w o latest sha
retry_commit-IsRetried w true o sha e = from_latest (require_some_inv _ commit_not_verified e)
retry_commit-IsRetried w false o sha e =
    subst (IsRetried w o false) (ap (value o.commit_sha) e) from_original

pub access_inv :
    (w : Surroundings) {t : Unit {0}}
    → (connected w >>= λ _. passed tt) ≡ passed t
    → (r : Repository) × IsConnected w r
unfolding ◌>>=◌
access_inv w {t} e = from (connected w) refl e
  where
    from :
        (m : Checked Repository)
        → connected w ≡ m
        → (m >>= λ _. passed tt) ≡ passed t
        → (r : Repository) × IsConnected w r
    from (passed r) f e = (r, connected-IsConnected w r f)
    from (refused x) f e = cc

pub eligible_inv :
    (t : Target) (project : ℕ) (active : Option ℕ)
    → is_rollback_target_eligible t project active ≡ true
    → is_other active t.row.id ≡ true
unfolding is_rollback_target_eligible
eligible_inv t project active e = last (t.row.project_id == project) _ t.has_image _ e
  where
    last : (a b c d : Bool) → (a && b && c && d) ≡ true → d ≡ true
    last a b c d e = ground (arith, e)
