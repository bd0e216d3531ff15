-- ===== src/Comments/Service.antt =====
-- apps/api/src/modules/comments/comments.service.ts and comments.repository.ts. The
-- names of authors that a query includes are left out of the rows.
use tasks_platform.Common.{
  ℕ, String, Bool, false, Option, none, some, ◌==◌, ◌&&◌, not, is_some, is_id,
}
use tasks_platform.Errors.{forbidden}
use tasks_platform.Authorization.Permissions.{comment_delete_any, comment_delete_own}
use tasks_platform.Authorization.Actor.{
  Actor, user, api_key, actor_columns, can_actor_act_on_resource,
}
use tasks_platform.Database.Schema.{null, added_comment, comment_added}
use tasks_platform.Database.Integrations.{Comment, Comment_key}
use tasks_platform.Database.Client.{
  Tables, Prisma, Action, ok, pure, ensure, stored, changed, ◌>>=◌, ◌>>◌,
}
use tasks_platform.Pagination.Page.{Page}
use tasks_platform.Pagination.Orders.{oldest_first}
use tasks_platform.Pagination.Listing.{list_page}
use tasks_platform.Activity.Service.{Generated, RecordActivityInput, record_change}

-- `{ id, taskId, deletedAt: null }`
abbrev pub live_comment : ℕ → ℕ → Comment → Bool
live_comment id task_id comment =
    comment.id == id && comment.task_id == task_id && not (is_some comment.deleted_at)

abbrev pub edited : ℕ → String → Comment → Comment
edited now body comment = record comment { body = body; edited_at = some now }

abbrev pub deleted : ℕ → Comment → Comment
deleted now comment = record comment { deleted_at = some now }

abbrev pub is_own_comment : Comment → Actor → Bool
is_own_comment comment (user id role) = is_id comment.author_id id
is_own_comment comment (api_key id scopes) = false

abbrev pub comment_row : ℕ → ℕ → ℕ → Actor → String → Comment
comment_row id now task_id actor body = record {
  id = id;
  task_id = task_id;
  author_id = (actor_columns actor).user_id;
  author_api_key_id = (actor_columns actor).api_key_id;
  body = body;
  edited_at = none;
  created_at = now;
  deleted_at = none;
}

abbrev pub comment_entry : ℕ → ℕ → ℕ → Actor → String → RecordActivityInput
comment_entry id task_id organization_id actor body = record {
  task_id = task_id;
  organization_id = organization_id;
  actor = actor;
  type = comment_added;
  before = null;
  after = added_comment id body;
}

module _ {t : Tables} where
  unfoldable pub create_row : Comment → Action t Comment
  create_row row db =
      stored (t.comment.create row db.comments) (λ rows. record db { comments = rows }) row db

  unfoldable pub find_by_id : ℕ → ℕ → Action t (Option Comment)
  find_by_id id task_id db = (ok (t.comment.find_first (live_comment id task_id) db.comments), db)

  unfoldable pub update_body : ℕ → ℕ → String → Action t Comment
  update_body now id body db =
      changed (t.comment.update id (edited now body) db.comments)
        (λ rows. record db { comments = rows }) db

  unfoldable pub soft_delete : ℕ → ℕ → Action t Comment
  soft_delete now id db =
      changed (t.comment.update id (deleted now) db.comments)
        (λ rows. record db { comments = rows }) db

  -- The block of the transaction in `create`.
  unfoldable pub create_block : Generated → ℕ → ℕ → ℕ → Actor → String → Action t Comment
  create_block g id task_id organization_id actor body = do
    comment ← create_row (comment_row id g.now task_id actor body)
    record_change g (comment_entry comment.id task_id organization_id actor body)
    pure comment

  unfoldable pub update : ℕ → Comment → ℕ → String → Action t Comment
  update now comment actor_id body = do
    ensure (is_id comment.author_id actor_id)
        (forbidden (some "Only the author can edit their comment"))
    update_body now comment.id body

  unfoldable pub remove : ℕ → Comment → Actor → Action t (Unit {0})
  remove now comment actor = do
    ensure
        (can_actor_act_on_resource actor comment_delete_any comment_delete_own
          (is_own_comment comment actor))
        (forbidden (some "Missing permission: comment:delete:own or comment:delete:any"))
    soft_delete now comment.id
    pure tt

module _ (prisma : Prisma) where
  unfoldable pub create : Generated → ℕ → ℕ → ℕ → Actor → String → Action prisma.tables Comment
  create g id task_id organization_id actor body =
      prisma.transaction Comment (create_block g id task_id organization_id actor body)

-- `{ taskId, deletedAt: null }`
abbrev pub of_task : ℕ → Comment → Bool
of_task task_id comment = comment.task_id == task_id && not (is_some comment.deleted_at)

abbrev pub comment_order : Comment → Comment → Bool
comment_order = oldest_first (λ comment. comment.created_at) Comment_key

module _ {t : Tables} (decode : String → Option ℕ) (encode : ℕ → String) where
  unfoldable pub list : ℕ → Option String → ℕ → Action t (Page Comment)
  list task_id cursor limit db =
      list_page t.comment decode encode (of_task task_id) comment_order cursor limit db.comments db
