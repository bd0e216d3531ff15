-- ===== src/Comments/Changes.antt =====
-- What each operation on comments makes of one of them.
use tasks_platform.Common.{
  ℕ, String, ◌≡◌, ◌⊎◌, inl, inr, refl, sym, ap, ◌∙◌, subst, true, Option, some, arith, ◌==◌,
  ℕ-cases,
}
use tasks_platform.Authorization.Permissions.{comment_delete_any, comment_delete_own}
use tasks_platform.Authorization.Actor.{Actor, can_actor_act_on_resource}
use tasks_platform.Database.Table.{created-old, updated-some, get-updated}
use tasks_platform.Database.Integrations.{Comment}
use tasks_platform.Database.Client.{Db, Prisma, pure}
use tasks_platform.Database.Steps.{Ends, ensure-then}
use tasks_platform.Database.Outcomes.{
  keep_through, atomically, stored-then, ok-then, changed-then, changed_last,
}
use tasks_platform.Members.Gate.{AuthContext, user_auth}
use tasks_platform.Activity.Service.{Generated}
use tasks_platform.Activity.Mirror.{record_one-Recorded}
use tasks_platform.Comments.Service
use tasks_platform.Comments.Service.{
  live_comment, is_own_comment, edited, deleted, comment_row, comment_entry,
}
use tasks_platform.Comments.Controller.{Request, Draws}
use tasks_platform.Comments.Entry.{is_author, MayRemove}

module _ (prisma : Prisma) where
  open prisma use {tables}

  -- What a request may make of a comment.
  abbrev pub Touched : Db tables → Option AuthContext → Draws → Request → Comment → Comment → Type 0
  Touched db auth draws (Request.create org project task body) old new = new ≡ old
  Touched db auth draws (Request.update org project task comment body) old new =
      (new ≡ old)
      ⊎ ((id : ℕ) × (auth ≡ some (user_auth id))
          × (old.author_id ≡ some id)
          × (new ≡ edited draws.now body old))
  Touched db auth draws (Request.remove org project task comment) old new =
      (new ≡ old) ⊎ (MayRemove prisma db auth org old × (new ≡ deleted draws.now old))

  -- What becomes of one comment.
  abbrev pub Becomes :
      Db tables → Option AuthContext → Draws → Request → ℕ → Comment → Db tables → Type 0
  Becomes db auth draws request k old after =
      (new : Comment) × (tables.comment.get k after.comments ≡ some new)
      × Touched db auth draws request old new

  pub untouched :
      (auth : Option AuthContext) (draws : Draws) (request : Request) (k : ℕ) (old : Comment)
      (db : Db tables)
      → tables.comment.get k db.comments ≡ some old
      → Becomes db auth draws request k old db
  untouched auth draws (Request.create org project task body) k old db there = (old, there, refl)
  untouched auth draws (Request.update org project task id body) k old db there =
      (old, there, inl refl)
  untouched auth draws (Request.remove org project task id) k old db there = (old, there, inl refl)

  pub create-keeps :
      (g : Generated) (id task_id organization_id k : ℕ) (actor : Actor) (body : String)
      (old : Comment) (db : Db tables)
      → tables.comment.get k db.comments ≡ some old
      → Ends
          (λ r. tables.comment.get k r.1.comments ≡ some old)
          (Service.create prisma g id task_id organization_id actor body db)
  unfolding Service.create Service.create_block Service.create_row
  create-keeps g id task_id org k actor body old db there =
      keep_through (λ d. tables.comment.get k d.comments ≡ some old) _
        (atomically prisma db _ (
          stored-then db _ _ _ _ (λ _. record { holds = tt })
            λ comments made.
              ok-then _ (λ _. pure (comment_row id g.now task_id actor body))
                (record_one-Recorded tables (λ _. g) (comment_entry id task_id org actor body)
                  (record db { comments = comments }))
                λ _ after (activities, events, _, _, same). record {
                  holds =
                      ap (λ d. tables.comment.get k d.comments) same
                      ∙ created-old tables.comment _ db.comments comments k made there;
                }))
        there (λ comment after kept. kept)

  -- A change of one comment leaves each other as it was.
  changed_row :
      (f : Comment → Comment) (k : ℕ) (comment old : Comment) (db : Db tables)
      (rows : tables.comment.Rows)
      → ((r : Comment) → (f r).id ≡ r.id)
      → tables.comment.get comment.id db.comments ≡ some comment
      → tables.comment.get k db.comments ≡ some old
      → rows ≡ tables.comment.update_many (λ x. x.id == comment.id) f db.comments
      → (tables.comment.get k rows ≡ some old)
        ⊎ ((old ≡ comment) × (tables.comment.get k rows ≡ some (f old)))
  changed_row f k comment old db rows keeps stored_one there same =
      let row =
        ap (tables.comment.get k) same
        ∙ get-updated tables.comment comment.id k f db.comments (keeps, λ r x h. h) in
      elim (ℕ-cases k comment.id) [
        | inl e ↦ inr ((ground (arith, ap (λ i. tables.comment.get i db.comments) e)), ground arith)
        | inr other ↦ inl (ground arith)
      ]

  pub update-Becomes :
      (auth : Option AuthContext) (draws : Draws) (org project task id k actor_id : ℕ)
      (body : String) (comment old : Comment) (db : Db tables)
      → auth ≡ some (user_auth actor_id)
      → tables.comment.get comment.id db.comments ≡ some comment
      → tables.comment.get k db.comments ≡ some old
      → Ends
          (λ r. Becomes db auth draws (Request.update org project task id body) k old r.1)
          (Service.update draws.now comment actor_id body db)
  unfolding Service.update Service.update_body
  update-Becomes auth draws org project task id k actor_id body comment old db is stored_one there =
      let as_is = untouched auth draws (Request.update org project task id body) k old db there in
      ensure-then db _ _ _ (λ _. record { holds = as_is })
        λ own.
          changed_last db _ _ (λ _. record { holds = as_is })
            λ a rows e.
              let (row, _, _, same) =
                updated-some tables.comment comment.id (edited draws.now body) db.comments
                  ((λ r. refl), λ r x h. h) e in
              elim (changed_row (edited draws.now body) k comment old db rows (λ r. refl) stored_one
                there same) [
                  | inl kept ↦ record { holds = (old, kept, inl refl) }
                  | inr (hit, now) ↦ record {
                    holds = (
                      edited draws.now body old,
                      now,
                      inr (
                        actor_id,
                        is,
                        ap (λ (c : Comment). c.author_id) hit
                            ∙ is_author comment.author_id actor_id own,
                        refl,
                      ),
                    );
                  }
                ]

  pub remove-Becomes :
      (auth : Option AuthContext) (draws : Draws) (org project task id k : ℕ) (actor : Actor)
      (comment old : Comment) (db : Db tables)
      → (can_actor_act_on_resource actor comment_delete_any comment_delete_own
              (is_own_comment comment actor)
            ≡ true
          → MayRemove prisma db auth org comment)
      → tables.comment.get comment.id db.comments ≡ some comment
      → tables.comment.get k db.comments ≡ some old
      → Ends
          (λ r. Becomes db auth draws (Request.remove org project task id) k old r.1)
          (Service.remove draws.now comment actor db)
  unfolding Service.remove Service.soft_delete
  remove-Becomes auth draws org project task id k actor comment old db may stored_one there =
      let as_is = untouched auth draws (Request.remove org project task id) k old db there in
      ensure-then db _ _ _ (λ _. record { holds = as_is })
        λ allowed.
          changed-then db _ _ _ (λ _. record { holds = as_is })
            λ a rows e.
              let (row, _, _, same) =
                updated-some tables.comment comment.id (deleted draws.now) db.comments
                  ((λ r. refl), λ r x h. h) e in
              elim (changed_row (deleted draws.now) k comment old db rows (λ r. refl) stored_one
                there same) [
                  | inl kept ↦ record { holds = (old, kept, inl refl) }
                  | inr (hit, now) ↦ record {
                    holds = (
                      deleted draws.now old,
                      now,
                      inr (subst (MayRemove prisma db auth org) (sym hit) (may allowed), refl),
                    );
                  }
                ]
