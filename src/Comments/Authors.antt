-- ===== src/Comments/Authors.antt =====
-- Who changes the text of a comment, and who removes it.
use tasks_platform.Common.{ℕ, String, ◌≡◌, inl, refl, Option, some}
use tasks_platform.Authorization.Permissions.{comment_create, comment_update_own}
use tasks_platform.Authorization.Actor.{Actor}
use tasks_platform.Database.Integrations.{Comment}
use tasks_platform.Database.Client.{Db, Prisma}
use tasks_platform.Database.Steps.{Ends, reads-then}
use tasks_platform.Database.Outcomes.{known-then, writes_nothing, keeps-unit}
use tasks_platform.Members.Gate.{AuthContext, require_permission, require_actor}
use tasks_platform.Tasks.Invariant.{require_permission-reads, require_actor-reads}
use tasks_platform.Comments.Controller.{Request, Draws, serve}
use tasks_platform.Comments.Entry.{
  require_comment-Reads, require_user_id-Reads, enter_comments-Entered, may_remove,
}
use tasks_platform.Comments.Changes.{Touched, Becomes, create-keeps, update-Becomes, remove-Becomes}

module _ (prisma : Prisma) where
  open prisma use {tables}

  create-Touched :
      (auth : Option AuthContext) (draws : Draws) (org project task k : ℕ) (body : String)
      (old : Comment) (db : Db tables)
      → tables.comment.get k db.comments ≡ some old
      → Ends
          (λ r. Becomes prisma db auth draws (Request.create org project task body) k old r.1)
          (serve prisma auth draws (Request.create org project task body) db)
  unfolding serve
  create-Touched auth draws org project task k body old db there =
      known-then _ _ (enter_comments-Entered prisma auth org project task db)
        (λ _. record { holds = (old, there, refl) })
        λ entered _.
          known-then _ _
            (writes_nothing (require_permission comment_create auth (some entered.0) db)
              (require_permission-reads prisma comment_create auth entered.0 db))
            (λ _. record { holds = (old, there, refl) })
            λ _ _.
              known-then _ _
                (writes_nothing (require_actor auth (some entered.0) db)
                  (require_actor-reads prisma auth entered.0 db))
                (λ _. record { holds = (old, there, refl) })
                λ actor _.
                  keeps-unit
                    (λ d.
                      (new : Comment) × (tables.comment.get k d.comments ≡ some new) × (new ≡ old))
                    _
                    (record {
                      holds = (
                        old,
                        (create-keeps prisma draws.generated draws.comment_id entered.1.id
                            entered.0.organization_id k actor body old db there).holds,
                        refl,
                      );
                    })

  update-Touched :
      (auth : Option AuthContext) (draws : Draws) (org project task id k : ℕ) (body : String)
      (old : Comment) (db : Db tables)
      → tables.comment.get k db.comments ≡ some old
      → Ends
          (λ r. Becomes prisma db auth draws (Request.update org project task id body) k old r.1)
          (serve prisma auth draws (Request.update org project task id body) db)
  unfolding serve
  update-Touched auth draws org project task id k body old db there =
      known-then _ _ (enter_comments-Entered prisma auth org project task db)
        (λ _. record { holds = (old, there, inl refl) })
        λ entered _.
          known-then _ _
            (writes_nothing (require_permission comment_update_own auth (some entered.0) db)
              (require_permission-reads prisma comment_update_own auth entered.0 db))
            (λ _. record { holds = (old, there, inl refl) })
            λ _ _.
              known-then _ _ (require_comment-Reads prisma id entered.1 db)
                (λ _. record { holds = (old, there, inl refl) })
                λ comment stored_one.
                  known-then _ _ (require_user_id-Reads prisma auth db)
                    (λ _. record { holds = (old, there, inl refl) })
                    λ actor_id is.
                      keeps-unit
                        (Becomes prisma db auth draws (Request.update org project task id body) k
                          old)
                        _
                        (update-Becomes prisma auth draws org project task id k actor_id body
                          comment old db is stored_one there)

  remove-Touched :
      (auth : Option AuthContext) (draws : Draws) (org project task id k : ℕ) (old : Comment)
      (db : Db tables)
      → tables.comment.get k db.comments ≡ some old
      → Ends
          (λ r. Becomes prisma db auth draws (Request.remove org project task id) k old r.1)
          (serve prisma auth draws (Request.remove org project task id) db)
  unfolding serve
  remove-Touched auth draws org project task id k old db there =
      known-then _ _ (enter_comments-Entered prisma auth org project task db)
        (λ _. record { holds = (old, there, inl refl) })
        λ entered is_in.
          known-then _ _ (require_comment-Reads prisma id entered.1 db)
            (λ _. record { holds = (old, there, inl refl) })
            λ comment stored_one.
              reads-then db (require_actor auth (some entered.0)) _
                (require_actor-reads prisma auth entered.0 db)
                (λ e _. record { holds = (old, there, inl refl) })
                λ (actor : Actor) acts.
                  remove-Becomes prisma auth draws org project task id k actor comment old db
                    (may_remove prisma auth org entered.0 actor comment db db is_in acts) stored_one
                    there

  -- Whatever a request on comments comes to, a comment that was there is there still, and is as it was,
  -- unless the user who wrote it edits it, which changes its text alone, or it is marked as deleted by
  -- its author, by a member whose role may delete any comment, or by a key of the organization with that scope.
  pub serve-Touched :
      (auth : Option AuthContext) (draws : Draws) (request : Request) (k : ℕ) (old : Comment)
      (db : Db tables)
      → tables.comment.get k db.comments ≡ some old
      → Ends
          (λ r.
            (new : Comment) × (tables.comment.get k r.1.comments ≡ some new)
            × Touched prisma db auth draws request old new)
          (serve prisma auth draws request db)
  serve-Touched auth draws (Request.create org project task body) k old db there =
      create-Touched auth draws org project task k body old db there
  serve-Touched auth draws (Request.update org project task id body) k old db there =
      update-Touched auth draws org project task id k body old db there
  serve-Touched auth draws (Request.remove org project task id) k old db there =
      remove-Touched auth draws org project task id k old db there
