-- ===== src/Accounts/Families.antt =====
-- What rotation means for the tokens of one login.
use tasks_platform.Common.{
  ℕ, ◌≡◌, ◌≢◌, ◌⊎◌, inl, inr, refl, sym, ap, subst, ◌∙◌, String, true, false, some, arith, ◌==◌,
  eq_iff, if◌then◌else◌, Option-cases, Bool-cases,
}
use tasks_platform.Errors.{app, unauthorized}
use tasks_platform.Database.Table.{get-updated, created-old, created-cases}
use tasks_platform.Database.Schema.{RefreshToken}
use tasks_platform.Database.Client.{Tables, Db, Prisma, Result, ok, err}
use tasks_platform.Accounts.Sessions
use tasks_platform.Accounts.Sessions.{NewToken, RequestMeta, token_row, revoked, replaced}
use tasks_platform.Accounts.Rotation.{
  has_hash, live, FamilyEnded, ended_rows, ended_rows-FamilyEnded, Rotated, Refused, Refreshed,
  refresh-Refreshed, refresh_revoked,
}

module _ (t : Tables) where
  -- The unique index on the hashes.
  abbrev pub UniqueHashes : t.refresh_token.Rows → Type 0
  UniqueHashes rows =
      (j k : ℕ) (x y : RefreshToken)
      → t.refresh_token.get j rows ≡ some x
      → t.refresh_token.get k rows ≡ some y
      → x.token_hash ≡ y.token_hash
      → j ≡ k

  -- A family has at most one live token.
  abbrev pub OneLive : t.refresh_token.Rows → Type 0
  OneLive rows =
      (j k : ℕ) (x y : RefreshToken)
      → t.refresh_token.get j rows ≡ some x
      → t.refresh_token.get k rows ≡ some y
      → live x ≡ true
      → live y ≡ true
      → x.family_id ≡ y.family_id
      → j ≡ k

  -- A row after a rotation: the new token, or an old one, the one that was presented being revoked.
  rotated_row :
      (session token : RefreshToken) (now : ℕ) (before rows : t.refresh_token.Rows)
      → t.refresh_token.create session before ≡ some rows
      → (k : ℕ) (x : RefreshToken)
      → t.refresh_token.get k
          (t.refresh_token.update_many (λ r. r.id == token.id) (replaced now session.id) rows)
        ≡ some x
      → (r : RefreshToken) × (((r ≡ session) × (k ≡ session.id))
          ⊎ (t.refresh_token.get k before ≡ some r))
        × (x ≡ (if k == token.id then replaced now session.id r else r))
  rotated_row session token now before rows created k x here =
      let row =
        get-updated t.refresh_token token.id k (replaced now session.id) rows
          ((λ r. refl), λ r x h. h) in
      elim (Option-cases (t.refresh_token.get k rows)) [
        | inl absent ↦ absurd (ground (arith, row))
        | inr (r, there) ↦ (r, which k r there, ground (arith, row))
      ]
    where
      which :
          (k : ℕ) (r : RefreshToken)
          → t.refresh_token.get k rows ≡ some r
          → ((r ≡ session) × (k ≡ session.id)) ⊎ (t.refresh_token.get k before ≡ some r)
      which k r there = elim (created-cases t.refresh_token session before rows k r created there) [
        | inl new ↦ inl (new, sym (t.refresh_token.get-key k rows r there) ∙ ap (λ y. y.id) new)
        | inr old ↦ inr old
      ]

shape-kept :
    (session token : RefreshToken) (now k : ℕ) (x r : RefreshToken)
    → x ≡ (if k == token.id then replaced now session.id r else r)
    → (x.token_hash ≡ r.token_hash) × (x.family_id ≡ r.family_id)
shape-kept session token now k x r shape = elim (Bool-cases (k == token.id)) [
  | inl its ↦
      let e = shape ∙ ap (λ b. if b then replaced now session.id r else r) its in
      (ap (λ y. y.token_hash) e, ap (λ y. y.family_id) e)
  | inr other ↦
      let e = shape ∙ ap (λ b. if b then replaced now session.id r else r) other in
      (ap (λ y. y.token_hash) e, ap (λ y. y.family_id) e)
]

live_shape :
    (session token : RefreshToken) (now k : ℕ) (x r : RefreshToken)
    → live x ≡ true
    → x ≡ (if k == token.id then replaced now session.id r else r)
    → (k ≢ token.id) × (x ≡ r)
live_shape session token now k x r is_live shape = elim (Bool-cases (k == token.id)) [
  | inl its ↦
      let e = shape ∙ ap (λ b. if b then replaced now session.id r else r) its in absurd (cc e)
  | inr other ↦
      (λ same. ground arith, shape ∙ ap (λ b. if b then replaced now session.id r else r) other)
]

module _ (prisma : Prisma) where
  open prisma use {tables}

  -- The token that is presented again is found revoked.
  spent :
      (now : ℕ) (new : NewToken) (token_hash : String) (meta : RequestMeta) (db after : Db tables)
      (session : RefreshToken)
      → UniqueHashes tables db.refresh_tokens
      → Rotated prisma now new token_hash meta db session after
      → (x : RefreshToken)
      → tables.refresh_token.find_first (has_hash token_hash) after.refresh_tokens ≡ some x
      → (live x ≡ false) × (x.family_id ≡ session.family_id)
  spent now new token_hash meta db after session unique
        (token, rows, found, is_live, in_time, is, created, same) x again =
      let (has, there) =
        tables.refresh_token.find_first-some (has_hash token_hash) after.refresh_tokens x again in
      let (had, stored_one) =
        tables.refresh_token.find_first-some (has_hash token_hash) db.refresh_tokens token found in
      let (r, which, shape) =
        rotated_row tables session token now db.refresh_tokens rows created x.id x
          (subst (λ d. tables.refresh_token.get x.id d.refresh_tokens ≡ some x) same there) in
      let (hash_kept, family_kept) = shape-kept session token now x.id x r shape in
      elim which [
        | inl (new_one, _) ↦
            let clash =
              tables.refresh_token.create-clashes session db.refresh_tokens rows token.id token
                created stored_one in
            absurd (
              cc (
                clash,
                (eq_iff session.token_hash token.token_hash).1 (
                    sym (hash_kept ∙ ap (λ y. y.token_hash) new_one)
                    ∙ (eq_iff x.token_hash token_hash).0 has
                    ∙ sym ((eq_iff token.token_hash token_hash).0 had)),
              ))
        | inr old ↦
            let at : x.id ≡ token.id = unique x.id token.id r token old stored_one (
              sym hash_kept
              ∙ (eq_iff x.token_hash token_hash).0 has
              ∙ sym ((eq_iff token.token_hash token_hash).0 had)) in
            let it : r ≡ token =
              ground (arith, ap (λ i. tables.refresh_token.get i db.refresh_tokens) at) in
            (ground arith, family_kept ∙ ap (λ y. y.family_id) it ∙ sym (ap (λ y. y.family_id) is))
      ]

  -- and it is found.
  still_known :
      (now : ℕ) (new : NewToken) (token_hash : String) (meta : RequestMeta) (db after : Db tables)
      (session : RefreshToken)
      → Rotated prisma now new token_hash meta db session after
      → (x : RefreshToken) × (tables.refresh_token.find_first
            (has_hash token_hash)
            after.refresh_tokens
          ≡ some x)
  still_known now new token_hash meta db after session
        (token, rows, found, is_live, in_time, is, created, same) =
      let (had, stored_one) =
        tables.refresh_token.find_first-some (has_hash token_hash) db.refresh_tokens token found in
      let there : tables.refresh_token.get token.id after.refresh_tokens
          ≡ some (replaced now session.id token) =
        rw same (
          ground (
            arith,
            created-old tables.refresh_token session db.refresh_tokens rows token.id created
                stored_one,
            get-updated tables.refresh_token token.id token.id (replaced now session.id) rows
                ((λ r. refl), λ r x h. h),
          )) in
      elim (Option-cases
        (tables.refresh_token.find_first (has_hash token_hash) after.refresh_tokens)) [
          | inl absent ↦ absurd (
              cc (
                had,
                tables.refresh_token.find_first-none (has_hash token_hash) after.refresh_tokens
                    token.id (replaced now session.id token) absent there,
              ))
          | inr known ↦ known
        ]

  rotation_one :
      (now : ℕ) (new : NewToken) (token_hash : String) (meta : RequestMeta) (db after : Db tables)
      (session : RefreshToken)
      → OneLive tables db.refresh_tokens
      → Rotated prisma now new token_hash meta db session after
      → OneLive tables after.refresh_tokens
  rotation_one now new token_hash meta db after session one
        (token, rows, found, is_live, in_time, is, created, same) =
      let (had, stored_one) =
        tables.refresh_token.find_first-some (has_hash token_hash) db.refresh_tokens token found in
      subst (λ d. OneLive tables d.refresh_tokens) (sym same)
        (λ j k x y at_j at_k live_x live_y family.
          let (r, which, shape) =
            rotated_row tables session token now db.refresh_tokens rows created j x at_j in
          let (q, that, form) =
            rotated_row tables session token now db.refresh_tokens rows created k y at_k in
          let (j_not, x_is) = live_shape session token now j x r live_x shape in
          let (k_not, y_is) = live_shape session token now k y q live_y form in
          elim which [
            | inl (r_new, j_new) ↦ elim that [
              | inl (q_new, k_new) ↦ j_new ∙ sym k_new
              | inr q_old ↦ absurd (
                  k_not (
                    one k token.id q token q_old stored_one (subst (λ z. live z ≡ true) y_is live_y)
                      is_live
                      (sym (ap (λ z. z.family_id) y_is)
                        ∙ sym family
                        ∙ ap (λ z. z.family_id) x_is
                        ∙ ap (λ z. z.family_id) r_new
                        ∙ ap (λ z. z.family_id) is)))
            ]
            | inr r_old ↦ elim that [
              | inl (q_new, k_new) ↦ absurd (
                  j_not (
                    one j token.id r token r_old stored_one (subst (λ z. live z ≡ true) x_is live_x)
                      is_live
                      (sym (ap (λ z. z.family_id) x_is)
                        ∙ family
                        ∙ ap (λ z. z.family_id) y_is
                        ∙ ap (λ z. z.family_id) q_new
                        ∙ ap (λ z. z.family_id) is)))
              | inr q_old ↦
                  one j k r q r_old q_old (subst (λ z. live z ≡ true) x_is live_x)
                    (subst (λ z. live z ≡ true) y_is live_y)
                    (sym (ap (λ z. z.family_id) x_is) ∙ family ∙ ap (λ z. z.family_id) y_is)
            ]
          ])

  refusal_one :
      (token_hash : String) (db after : Db tables)
      → OneLive tables db.refresh_tokens
      → Refused prisma token_hash db after
      → OneLive tables after.refresh_tokens
  refusal_one token_hash db after one (inl same) =
      subst (λ d. OneLive tables d.refresh_tokens) (sym same) one
  refusal_one token_hash db after one (inr (token, found, dead, (ended, others))) =
      λ j k x y at_j at_k live_x live_y family.
        let x_other : x.family_id ≢ token.family_id = λ e. absurd (cc (ended j x at_j e)) in
        let y_other : y.family_id ≢ token.family_id = λ e. absurd (cc (ended k y at_k e)) in
        one j k x y ((others j x x_other).1 at_j) ((others k y y_other).1 at_k) live_x live_y family

  -- If every family has one live token at most, that is still so after a refresh, however it ends.
  pub refresh-OneLive :
      (now : ℕ) (new : NewToken) (token_hash : String) (meta : RequestMeta) (db : Db tables)
      → OneLive tables db.refresh_tokens
      → OneLive tables (Sessions.refresh prisma now new token_hash meta db).1.refresh_tokens
  refresh-OneLive now new token_hash meta db one =
      outcome (Sessions.refresh prisma now new token_hash meta db)
        (refresh-Refreshed prisma now new token_hash meta db).holds
    where
      outcome :
          (r : Result RefreshToken × Db tables)
          → Refreshed prisma now new token_hash meta db r
          → OneLive tables r.1.refresh_tokens
      outcome (ok session, after) rotated =
          rotation_one now new token_hash meta db after session one rotated
      outcome (err e, after) refused = refusal_one token_hash db after one refused

  -- Where hashes are unique, a token has one use: presented again after a refresh with it went through, it
  -- is refused, and every token of the family is revoked, those of other families being as they were.
  pub refresh_once :
      (now : ℕ) (new : NewToken) (token_hash : String) (meta : RequestMeta) (db after : Db tables)
      {session : RefreshToken}
      → UniqueHashes tables db.refresh_tokens
      → Sessions.refresh prisma now new token_hash meta db ≡ (ok session, after)
      → (later : ℕ) (new2 : NewToken) (meta2 : RequestMeta)
      → let (r, final) = Sessions.refresh prisma later new2 token_hash meta2 after in
        (r ≡ err (app (unauthorized (some "Invalid refresh token"))))
        × FamilyEnded tables session.family_id after.refresh_tokens final.refresh_tokens
  refresh_once now new token_hash meta db after {session} unique done later new2 meta2 =
      let rotated : Rotated prisma now new token_hash meta db session after =
        subst (Refreshed prisma now new token_hash meta db) done
          (refresh-Refreshed prisma now new token_hash meta db).holds in
      let (x, found) = still_known now new token_hash meta db after session rotated in
      let (dead, family) = spent now new token_hash meta db after session unique rotated x found in
      rw (refresh_revoked prisma later new2 token_hash meta2 after found dead) (
        refl,
        subst
            (λ f.
              FamilyEnded tables f after.refresh_tokens
                (ended_rows tables later x.family_id after.refresh_tokens))
            family (ended_rows-FamilyEnded tables later x.family_id after.refresh_tokens),
      )
