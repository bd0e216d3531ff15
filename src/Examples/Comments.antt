-- ===== src/Examples/Comments.antt =====
-- Comments.
use tasks_platform.Common.{◌≡◌, refl, none, some, ◌==◌, if◌then◌else◌}
use tasks_platform.Database.Integrations.{Comment}
use tasks_platform.Database.Client.{Db}
use tasks_platform.Database.Steps.{Ends}
use tasks_platform.Database.Instance.{memory, memory_tables}
use tasks_platform.Members.Gate.{user_auth}
use tasks_platform.Comments.Controller.{Request, Draws, serve}
use tasks_platform.Comments.Changes.{Touched}
use tasks_platform.Comments.Authors.{serve-Touched}
use tasks_platform.Examples.Rows

-- User 3, a member, has written one comment on the task.
abbrev comment : Comment
comment = record {
  id = 1;
  task_id = 1;
  author_id = some 3;
  author_api_key_id = none;
  body = "Looks good";
  edited_at = none;
  created_at = 2;
  deleted_at = none;
}

abbrev db : Db memory_tables
db = record Rows.db {
  comments = record { bound = 2; row = λ k. if k == 1 then some comment else none };
}

abbrev draws : Draws
draws = record { generated = Rows.generated 10 0; comment_id = 9; now = 7 }

-- The author edits it.
serve-Touched_example :
    Ends
      (λ r.
        (new : Comment) × (memory_tables.comment.get 1 r.1.comments ≡ some new)
        × Touched memory db (some (user_auth 3)) draws (Request.update 1 1 1 1 "Done") comment new)
      (serve memory (some (user_auth 3)) draws (Request.update 1 1 1 1 "Done") db)
serve-Touched_example =
    serve-Touched memory (some (user_auth 3)) draws (Request.update 1 1 1 1 "Done") 1 comment db
      refl
