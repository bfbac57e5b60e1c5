-- ===== src/Deployment/Build/Queueing.antt =====
-- The end of an undisturbed build of apps/worker/src/jobs/build-deployment.job.js.
use hello_deploy.Prelude.{
  ◌≡◌, refl, sym, ◌∙◌, ap, Bool, true, false, ◌&&◌, Option, none, some, or_else, [], ◌∷◌,
  if◌then◌else◌,
}
use hello_deploy.Contracts.Enums.{deploying}
use hello_deploy.Deployment.Status.{is_terminal}
use hello_deploy.Jobs.{ended, ends}
use hello_deploy.Jobs.Requirements.{Decides}
use hello_deploy.Deployment.Build.Flow.{
  Image, Db, State, Snapshot, Point, Call, act, meanwhile, update_status, fail_build,
  configuration_changed, activation_enqueue_failed, clean_workspace, enqueue_activation, refused,
  queued_activation, before_environment_check, before_deploying,
}
use hello_deploy.Deployment.Build.Plans.{Plan, snapshot_of}
use hello_deploy.Deployment.Build.Stages.{
  environment_version_filter, is_unchanged, remove_platform_image, enqueue_activation_of,
  finish_build,
}
use hello_deploy.Deployment.Build.Requirements.{finish_requirements}
use hello_deploy.Deployment.Build.Undisturbed.{
  fail_build-Verdict, meanwhile-Kept, image_of, Verdict, Kept, Verdict-same, update_status_db,
  remove_db,
}

remove_platform_db :
    (b : Bool) (image : Image) (s : State) → (remove_platform_image b image s).db ≡ s.db
remove_platform_db true image s = remove_db (some image) s
remove_platform_db false image s = refl

same_project :
    (o : Option Snapshot) (d e : Db)
    → d.environment_version ≡ e.environment_version
    → d.has_project ≡ e.has_project
    → is_unchanged o d ≡ is_unchanged o e
same_project none d e v p = refl
same_project (some x) d e v p =
    ap
      (λ b. b && environment_version_filter (or_else x.environment_version 1) d.environment_version)
      p
    ∙ ap (λ v. e.has_project && environment_version_filter (or_else x.environment_version 1) v) v

is_deploying : is_terminal deploying ≡ false
unfolding is_terminal
is_deploying = refl

module _ (j : Call) (quiet : (p : Point) (db : Db) → j.others p db ≡ db) (before : Db) where
  enqueue-Decides :
      (b : Bool) (image : Image) (s : State)
      → Kept before s
      → s.db.status ≡ deploying
      → s.db.image ≡ image_of j
      → Decides
          (Verdict j)
          ((j.answers.is_enqueued, activation_enqueue_failed) ∷ [])
          (enqueue_activation_of j b image s)
  enqueue-Decides b image s h st im = by_queue j.answers.is_enqueued
    where
      by_queue :
          (q : Bool)
          → Decides (Verdict j) ((q, activation_enqueue_failed) ∷ []) (
              if q
              then ended queued_activation (act enqueue_activation s)
              else ended refused
                  (remove_platform_image b image (fail_build j activation_enqueue_failed s)))
      by_queue true = ends (refl, st, im)
      by_queue false =
          let f = fail_build j activation_enqueue_failed s in
          ends (
            Verdict-same j _ f (remove_platform_image b image f)
              (sym (remove_platform_db b image f)) (fail_build-Verdict j quiet before _ s h))

  save : Image → Db → Db
  save image db = record db { image = some image }

  saved-Kept :
      (image : Image) (s : State)
      → Kept before s
      → Kept before (update_status deploying (save image) s)
  unfolding save
  saved-Kept image s h =
      let e = update_status_db deploying (save image) s h.0 in
      (
        ap (λ db. is_terminal db.status) e ∙ is_deploying,
        ap (λ db. db.environment_version) e ∙ h.1,
        ap (λ db. db.has_project) e ∙ h.2,
      )

  pub finish-Decides :
      (plan : Plan) (b : Bool) (image : Image) (s : State)
      → plan.snapshot ≡ snapshot_of j
      → Kept before s
      → image_of j ≡ some image
      → Decides (Verdict j) (finish_requirements j before) (finish_build j plan b image s)
  unfolding finish_build save
  finish-Decides plan b image s e h im =
      by_change (is_unchanged plan.snapshot t.db) (is_unchanged (snapshot_of j) before)
        (same_project plan.snapshot t.db before k.1 k.2 ∙ ap (λ o. is_unchanged o before) e)
    where
      t : State
      t = meanwhile j before_environment_check s

      k : Kept before t
      k = meanwhile-Kept j quiet before before_environment_check s h

      u : State
      u = meanwhile j before_deploying t

      l : Kept before u
      l = meanwhile-Kept j quiet before before_deploying t k

      v : State
      v = act clean_workspace (update_status deploying (save image) u)

      by_change :
          (x y : Bool)
          → x ≡ y
          → Decides
              (Verdict j)
              ((y, configuration_changed) ∷ (j.answers.is_enqueued, activation_enqueue_failed) ∷ [])
              (if x
                then enqueue_activation_of j b image v
                else ended refused (
                    act clean_workspace
                      (remove_platform_image b image (fail_build j configuration_changed t))))
      by_change true true e =
          let d = update_status_db deploying (save image) u l.0 in
          enqueue-Decides b image v (saved-Kept image u l) (ap (λ db. db.status) d)
            (ap (λ db. db.image) d ∙ sym im)
      by_change false false e =
          let f = fail_build j configuration_changed t in
          ends (
            Verdict-same j _ f (act clean_workspace (remove_platform_image b image f))
              (sym (remove_platform_db b image f)) (fail_build-Verdict j quiet before _ t k))
      by_change true false e = cc
      by_change false true e = cc
