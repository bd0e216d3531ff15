-- ===== src/ApiKeys/Validity.antt =====
-- Which keys authenticate, and what a request that one authenticates may do.
use tasks_platform.Common.{
  ℕ, ◌≡◌, ◌⊎◌, inl, inr, refl, sym, ap, ◌∙◌, String, Bool, true, false, Option, none, some, arith,
  eq_iff, Bool-cases, is_some, is_some-false, ◌==◌,
}
use tasks_platform.Database.Table.{Keeps, updated-some, found_updated}
use tasks_platform.Database.Integrations.{ApiKey}
use tasks_platform.Database.Client.{Tables, Db, ok}
use tasks_platform.Database.Steps.{Ends, or_throw-then}
use tasks_platform.Database.Outcomes.{Atomic, refused, changed-then, atomic-ok}
use tasks_platform.ApiKeys.Service
use tasks_platform.ApiKeys.Service.{
  NewApiKey, ApiKeyAuthentication, authenticated, rejected, unknown_key, revoked_key, expired_key,
  has_key_hash, is_past, is_stale, last_used, find_by_hash, touch_last_used_if_stale, revoked,
  revoke_row, unrevoked, in_organization, find_by_id, authenticate,
}

module _ (t : Tables) where
  -- What the outcome of an authentication says of the key with the hash.
  abbrev pub Judged : ℕ → Option ApiKey → Db t → ApiKeyAuthentication → Db t → Type 0
  Judged now found db (authenticated id organization_id scopes) after =
      (key : ApiKey) × (found ≡ some key)
      × (key.revoked_at ≡ none)
      × (is_past now key.expires_at ≡ false)
      × (id ≡ key.id)
      × (organization_id ≡ key.organization_id)
      × (scopes ≡ key.scopes)
      × ((after ≡ db)
          ⊎ (after ≡ record db {
            api_keys = t.api_key.update_many (is_stale key.id now) (last_used now) db.api_keys;
          }))
  Judged now found db (rejected unknown_key) after = (found ≡ none) × (after ≡ db)
  Judged now found db (rejected revoked_key) after =
      (key : ApiKey) × (found ≡ some key) × (is_some key.revoked_at ≡ true) × (after ≡ db)
  Judged now found db (rejected expired_key) after =
      (key : ApiKey) × (found ≡ some key)
      × (key.revoked_at ≡ none)
      × (is_past now key.expires_at ≡ true)
      × (after ≡ db)

  -- The key with the hash authenticates exactly when it is there, not revoked and not past its expiry, in
  -- its own organization and with its own scopes; a refusal has its reason and writes nothing, and nothing
  -- but the last use of that key is ever written.
  pub authenticate-Judged :
      (noted : Bool) (now : ℕ) (key_hash : String) (db : Db t)
      → (answer : ApiKeyAuthentication) × (after : Db t) × (authenticate noted now key_hash db
          ≡ (ok answer, after))
        × Judged now (t.api_key.find_first (has_key_hash key_hash) db.api_keys) db answer after
  unfolding authenticate find_by_hash touch_last_used_if_stale
  authenticate-Judged noted now key_hash db =
      outcome (t.api_key.find_first (has_key_hash key_hash) db.api_keys)
    where
      outcome :
          (found : Option ApiKey)
          → (answer : ApiKeyAuthentication) × (after : Db t) × (Service.judge noted now found db
              ≡ (ok answer, after))
            × Judged now found db answer after
      outcome none = (rejected unknown_key, db, refl, (refl, refl))
      outcome (some key) = elim (Bool-cases (is_some key.revoked_at)) [
        | inl gone ↦ (rejected revoked_key, db, rw gone, (key, refl, gone, refl))
        | inr live ↦ elim (Bool-cases (is_past now key.expires_at)) [
          | inl late ↦ (
            rejected expired_key,
            db,
            rw (live, late),
            (key, refl, is_some-false _ live, late, refl),
          )
          | inr timely ↦ elim (Bool-cases noted) [
            | inl e ↦ (
              authenticated key.id key.organization_id key.scopes,
              _,
              rw (live, timely, e),
              (key, refl, is_some-false _ live, timely, refl, refl, refl, inr refl),
            )
            | inr e ↦ (
              authenticated key.id key.organization_id key.scopes,
              db,
              rw (live, timely, e),
              (key, refl, is_some-false _ live, timely, refl, refl, refl, inl refl),
            )
          ]
        ]
      ]

  pub revoked-Keeps : (now : ℕ) → Keeps t.api_key (revoked now)
  revoked-Keeps now = (λ r. refl, λ r x h. h)

  -- No two keys have the same hash: the unique index of the column.
  abbrev pub UniqueHashes : t.api_key.Rows → Type 0
  UniqueHashes rows =
      (k j : ℕ) (x y : ApiKey)
      → t.api_key.get k rows ≡ some x
      → t.api_key.get j rows ≡ some y
      → x.key_hash ≡ y.key_hash
      → k ≡ j

  unrevoked-some :
      (o : Option ApiKey) (key : ApiKey)
      → unrevoked o ≡ some key
      → (o ≡ some key) × (key.revoked_at ≡ none)
  unrevoked-some none key e = absurd (cc)
  unrevoked-some (some x) key e = (ground arith, ground arith)

  -- Revoking a key writes nothing, or the time on the one key of the organization.
  pub revoke-Revoked :
      (now organization_id id : ℕ) (db : Db t)
      → Ends
          (Atomic db (λ _ after.
            (key : ApiKey) × (t.api_key.find_first (in_organization id organization_id) db.api_keys
              ≡ some key)
            × (key.revoked_at ≡ none)
            × (after ≡ record db {
              api_keys = t.api_key.update_many (λ r. r.id == key.id) (revoked now) db.api_keys;
            })))
          (Service.revoke now organization_id id db)
  unfolding Service.revoke find_by_id revoke_row
  revoke-Revoked now org id db =
      or_throw-then db _ _ _ (λ _. refused)
        λ key e.
          let (found, live) = unrevoked-some _ key e in
          changed-then db _ _ _ (λ _. refused)
            λ a rows changed.
              let (_, _, _, same) =
                updated-some t.api_key key.id (revoked now) db.api_keys (revoked-Keeps now)
                  changed in
              record { holds = (key, found, live, ap (λ r. record db { api_keys = r }) same) }

  -- From the moment at which a key is revoked, while its row stays, no request authenticates with it: each is
  -- refused for that reason, and nothing is written.
  revoke-Refused :
      (now organization_id id : ℕ) (db after : Db t) (key : ApiKey) (later : Db t) (noted : Bool)
      (now' : ℕ)
      → UniqueHashes db.api_keys
      → Service.revoke now organization_id id db ≡ (ok tt, after)
      → t.api_key.get id db.api_keys ≡ some key
      → later.api_keys ≡ after.api_keys
      → authenticate noted now' key.key_hash later ≡ (ok (rejected revoked_key), later)
  unfolding authenticate find_by_hash
  revoke-Refused now org id db after key later noted now' unique e there kept =
      let (x, found, _, is) = atomic-ok (revoke-Revoked now org id db) e in
      let (meets, row) = t.api_key.find_first-some _ db.api_keys x found in
      let own : x.id ≡ id = ground arith in
      let same : x ≡ key = cc (sym row ∙ ap (λ k. t.api_key.get k db.api_keys) own) in
      let again : t.api_key.find_first (has_key_hash key.key_hash) later.api_keys
          ≡ some (revoked now x) =
        rw (kept, is)
          (found_updated t.api_key (has_key_hash key.key_hash) (revoked now) db.api_keys x
            (revoked-Keeps now) (λ r. refl)
            (λ y at hashed.
              unique y.id x.id y x at row
                ((eq_iff _ _).0 hashed ∙ ap (λ (r : ApiKey). r.key_hash) (sym same)))
            row ((eq_iff _ _).1 (ap (λ (r : ApiKey). r.key_hash) same))) in
      rw again refl
