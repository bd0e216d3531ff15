-- ===== src/ApiKeys/Service.antt =====
-- apps/api/src/modules/api-keys (api-keys.service.ts, api-keys.repository.ts). The new key's hash and its
-- visible prefix, the row's key and the time are arguments. The texts that name the refused scopes are left
-- out.
use tasks_platform.Common.{
  ℕ, ◌-◌, ◌*◌, String, Bool, true, false, not, ◌&&◌, ◌||◌, Option, none, some, List, [], ◌∷◌, ◌==◌,
  str_eq, ltb, leb, is_some, if◌then◌else◌, filter, is_empty,
}
use tasks_platform.Errors.{not_found, forbidden, unprocessable_entity}
use tasks_platform.Authorization.Permissions.{Role, Permission, is_permission}
use tasks_platform.Authorization.Actor.{
  user, actor_has_permission, is_permission_grantable_to_api_key,
}
use tasks_platform.Database.Integrations.{ApiKey}
use tasks_platform.Database.Client.{
  Tables, Action, ok, pure, ensure, or_throw, stored, changed, ◌>>=◌, ◌>>◌,
}

pub record NewApiKey : Type 0 where
  pub id : ℕ
  pub now : ℕ
  pub prefix : String
  pub key_hash : String

unfoldable pub contains : List String → String → Bool
contains [] x = false
contains (y ∷ ys) x = str_eq y x || contains ys x

-- `[...new Set(scopes)]`: the first occurrences
unfoldable pub unique_from : List String → List String → List String
unique_from seen [] = []
unique_from seen (x ∷ xs) = elim (contains seen x) [
  | true ↦ unique_from seen xs
  | false ↦ x ∷ unique_from (x ∷ seen) xs
]

abbrev pub unique : List String → List String
unique xs = unique_from [] xs

abbrev pub add_known : Option Permission → List Permission → List Permission
add_known none ps = ps
add_known (some p) ps = p ∷ ps

-- `uniqueScopes.filter(isPermission)`
unfoldable pub known : List String → List Permission
known [] = []
known (x ∷ xs) = add_known (is_permission x) (known xs)

abbrev pub api_key_row : NewApiKey → ℕ → ℕ → String → List Permission → Option ℕ → ApiKey
api_key_row new organization_id created_by_id name scopes expires_at = record {
  id = new.id;
  organization_id = organization_id;
  name = name;
  prefix = new.prefix;
  key_hash = new.key_hash;
  scopes = scopes;
  created_by_id = created_by_id;
  last_used_at = none;
  expires_at = expires_at;
  revoked_at = none;
  created_at = new.now;
}

abbrev pub has_key_hash : String → ApiKey → Bool
has_key_hash key_hash api_key = str_eq api_key.key_hash key_hash

abbrev pub in_organization : ℕ → ℕ → ApiKey → Bool
in_organization id organization_id api_key =
    api_key.id == id && api_key.organization_id == organization_id

abbrev pub last_used_stale_after_ms : ℕ
last_used_stale_after_ms = 5 * 60 * 1000

abbrev pub before_or_never : ℕ → Option ℕ → Bool
before_or_never limit none = true
before_or_never limit (some at) = ltb at limit

-- `id, OR: [{ lastUsedAt: null }, { lastUsedAt: { lt: … } }]`
abbrev pub is_stale : ℕ → ℕ → ApiKey → Bool
is_stale id now api_key =
    api_key.id == id && before_or_never (now - last_used_stale_after_ms) api_key.last_used_at

abbrev pub revoked : ℕ → ApiKey → ApiKey
revoked now api_key = record api_key { revoked_at = some now }

abbrev pub last_used : ℕ → ApiKey → ApiKey
last_used now api_key = record api_key { last_used_at = some now }

-- `apiKey.expiresAt && apiKey.expiresAt < new Date()`
abbrev pub is_past : ℕ → Option ℕ → Bool
is_past now none = false
is_past now (some at) = ltb at now

-- `!apiKey || apiKey.revokedAt`
abbrev pub unrevoked : Option ApiKey → Option ApiKey
unrevoked none = none
unrevoked (some api_key) = if is_some api_key.revoked_at then none else some api_key

pub data Rejection : Type 0 where
  unknown_key revoked_key expired_key : Rejection

pub data ApiKeyAuthentication : Type 0 where
  authenticated : ℕ → ℕ → List Permission → ApiKeyAuthentication
  rejected : Rejection → ApiKeyAuthentication

module _ {t : Tables} where
  -- apiKeysRepository
  unfoldable pub create_row : ApiKey → Action t ApiKey
  create_row row db =
      stored (t.api_key.create row db.api_keys) (λ rows. record db { api_keys = rows }) row db

  unfoldable pub find_by_hash : String → Action t (Option ApiKey)
  find_by_hash key_hash db = (ok (t.api_key.find_first (has_key_hash key_hash) db.api_keys), db)

  unfoldable pub find_by_id : ℕ → ℕ → Action t (Option ApiKey)
  find_by_id id organization_id db =
      (ok (t.api_key.find_first (in_organization id organization_id) db.api_keys), db)

  unfoldable pub list : ℕ → Action t (List ApiKey)
  list organization_id db = (
    ok (
        t.api_key.find_ordered (λ key. key.organization_id == organization_id)
          (λ a b. leb b.created_at a.created_at) db.api_keys),
    db,
  )

  unfoldable pub revoke_row : ℕ → ℕ → Action t ApiKey
  revoke_row now id db =
      changed (t.api_key.update id (revoked now) db.api_keys)
        (λ rows. record db { api_keys = rows }) db

  unfoldable pub touch_last_used_if_stale : ℕ → ℕ → Action t (Unit {0})
  touch_last_used_if_stale now id db = (
    ok tt,
    record db { api_keys = t.api_key.update_many (is_stale id now) (last_used now) db.api_keys },
  )

  -- apiKeysService
  unfoldable pub create :
      NewApiKey → ℕ → ℕ → Role → String → List String → Option ℕ → Action t ApiKey
  create new organization_id creator_id creator_role name scopes expires_at =
      let unique_scopes = unique scopes in
      let creator = user creator_id creator_role in
      let permissions = known unique_scopes in
      do
        ensure (is_empty (filter (λ scope. not (is_some (is_permission scope))) unique_scopes))
            (unprocessable_entity none)
        ensure (is_empty (filter (λ p. not (actor_has_permission creator p)) permissions))
            (forbidden none)
        ensure (is_empty (filter (λ p. not (is_permission_grantable_to_api_key p)) permissions))
            (unprocessable_entity none)
        create_row (api_key_row new organization_id creator_id name permissions expires_at)

  unfoldable pub revoke : ℕ → ℕ → ℕ → Action t (Unit {0})
  revoke now organization_id api_key_id = do
    found ← find_by_id api_key_id organization_id
    api_key ← or_throw (unrevoked found) (not_found (some "API key not found"))
    revoke_row now api_key.id
    pure tt

  -- Nobody waits for the note of the last use, which may fail: `noted` says whether it is made.
  abbrev pub note_use : Bool → ℕ → ApiKey → Action t ApiKeyAuthentication
  note_use noted now api_key =
      (if noted then touch_last_used_if_stale now api_key.id else pure tt)
      >> pure (authenticated api_key.id api_key.organization_id api_key.scopes)

  abbrev pub judge : Bool → ℕ → Option ApiKey → Action t ApiKeyAuthentication
  judge noted now none = pure (rejected unknown_key)
  judge noted now (some api_key) =
      if is_some api_key.revoked_at
      then pure (rejected revoked_key)
      else if is_past now api_key.expires_at
      then pure (rejected expired_key)
      else note_use noted now api_key

  unfoldable pub authenticate : Bool → ℕ → String → Action t ApiKeyAuthentication
  authenticate noted now key_hash = do found ← find_by_hash key_hash; judge noted now found
