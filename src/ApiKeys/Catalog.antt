-- ===== src/ApiKeys/Catalog.antt =====
-- Every operation on keys leaves their scopes in the catalog, and what a key brings to a request is in it.
use tasks_platform.Common.{
  ℕ, ◌≡◌, inl, inr, refl, sym, ap, ◌∙◌, subst, String, Bool, true, false, Option, none, some, List,
  arith, Among, map_option, Option-cases, ◌==◌, if◌then◌else◌,
}
use tasks_platform.Authorization.Permissions.{Role, Permission}
use tasks_platform.Authorization.Actor.{is_permission_grantable_to_api_key}
use tasks_platform.Database.Table.{Keeps, created-cases}
use tasks_platform.Database.Integrations.{ApiKey}
use tasks_platform.Database.Client.{Tables, Db, Result}
use tasks_platform.Database.Steps.{Ends, or_throw-then}
use tasks_platform.Database.Outcomes.{keep_through, OnOk}
use tasks_platform.Members.Gate.{AuthContext, user_auth, api_key_auth}
use tasks_platform.ApiKeys.Service
use tasks_platform.ApiKeys.Service.{
  ApiKeyAuthentication, authenticated, rejected, has_key_hash, is_stale, last_used, revoked,
}
use tasks_platform.ApiKeys.Scopes.{create-Granted}
use tasks_platform.ApiKeys.Authentication.{of_credential, require_auth, of_key, of_token}
use tasks_platform.ApiKeys.Validity.{Judged, authenticate-Judged, revoked-Keeps, revoke-Revoked}

module _ (t : Tables) where
  abbrev pub InCatalog : Db t → Type 0
  InCatalog db =
      (k : ℕ) (key : ApiKey)
      → t.api_key.get k db.api_keys ≡ some key
      → (p : Permission) → Among p key.scopes
      → is_permission_grantable_to_api_key p ≡ true

  -- An update that leaves the scopes alone.
  pub updated-InCatalog :
      (meets : ApiKey → Bool) (f : ApiKey → ApiKey) (db : Db t)
      → Keeps t.api_key f
      → ((r : ApiKey) → (f r).scopes ≡ r.scopes)
      → InCatalog db
      → InCatalog (record db { api_keys = t.api_key.update_many meets f db.api_keys })
  updated-InCatalog meets f db keeps same all k key there p at =
      let row = t.api_key.get-update_many meets f keeps.0 keeps.1 db.api_keys k in
      elim (Option-cases (t.api_key.get k db.api_keys)) [
        | inl absent ↦ absurd (ground (arith, row))
        | inr (r, found) ↦
            let is : key ≡ (if meets r then f r else r) =
              cc (sym there ∙ row ∙ ap (map_option (λ x. if meets x then f x else x)) found) in
            all k r found p
              (subst (Among p) (ap (λ (x : ApiKey). x.scopes) is ∙ either (meets r) r) at)
      ]
    where
      either : (b : Bool) (r : ApiKey) → (if b then f r else r).scopes ≡ r.scopes
      either true r = same r
      either false r = refl

  pub create-InCatalog :
      (new : Service.NewApiKey) (organization_id creator_id : ℕ) (creator_role : Role)
      (name : String) (scopes : List String) (expires_at : Option ℕ) (db : Db t)
      → InCatalog db
      → Ends
          (λ r. InCatalog r.1)
          (Service.create new organization_id creator_id creator_role name scopes expires_at db)
  create-InCatalog new org creator role name scopes expires_at db all =
      keep_through InCatalog _ (create-Granted t new org creator role name scopes expires_at db) all
        λ key after (rows, permissions, is, e, same, _, each).
          subst InCatalog (sym same) λ k x there p at.
            elim (created-cases t.api_key key db.api_keys rows k x e there) [
              | inl new_row ↦
                  (each p (subst (λ (r : ApiKey). Among p r.scopes) (new_row ∙ is) at)).2
              | inr old ↦ all k x old p at
            ]

  pub revoke-InCatalog :
      (now organization_id id : ℕ) (db : Db t)
      → InCatalog db
      → Ends (λ r. InCatalog r.1) (Service.revoke now organization_id id db)
  revoke-InCatalog now org id db all =
      keep_through InCatalog _ (revoke-Revoked t now org id db) all λ _ after (key, _, _, same).
        subst InCatalog (sym same) (
          updated-InCatalog (λ r. r.id == key.id) (revoked now) db (revoked-Keeps t now) (λ r. refl)
            all)

  Judged-InCatalog :
      (now : ℕ) (found : Option ApiKey) (db : Db t) (answer : ApiKeyAuthentication) (after : Db t)
      → Judged t now found db answer after
      → InCatalog db
      → InCatalog after
  Judged-InCatalog now found db (authenticated id org scopes) after
        (key, _, _, _, _, _, _, inl same) all =
      subst InCatalog (sym same) all
  Judged-InCatalog now found db (authenticated id org scopes) after
        (key, _, _, _, _, _, _, inr same) all =
      subst InCatalog (sym same) (
        updated-InCatalog (is_stale key.id now) (last_used now) db ((λ r. refl), λ r x h. h)
          (λ r. refl) all)
  Judged-InCatalog now found db (rejected Service.unknown_key) after (_, same) all =
      subst InCatalog (sym same) all
  Judged-InCatalog now found db (rejected Service.revoked_key) after (_, _, _, same) all =
      subst InCatalog (sym same) all
  Judged-InCatalog now found db (rejected Service.expired_key) after (_, _, _, _, same) all =
      subst InCatalog (sym same) all

  module _ (hash_token : String → String) (verify_access_token : String → Option ℕ) where
    -- The scopes that a key brings to a request.
    abbrev pub Scoped : AuthContext → Type 0
    Scoped (user_auth id) = Unit {0}
    Scoped (api_key_auth id organization_id scopes) =
        (p : Permission) → Among p scopes → is_permission_grantable_to_api_key p ≡ true

    abbrev pub Authenticates : Result AuthContext × Db t → Type 0
    Authenticates r = InCatalog r.1 × OnOk (λ auth _. Scoped auth) r

    of_key-Authenticates :
        (now : ℕ) (found : Option ApiKey) (db : Db t) (answer : ApiKeyAuthentication) (after : Db t)
        → ((key : ApiKey) → found ≡ some key → t.api_key.get key.id db.api_keys ≡ some key)
        → Judged t now found db answer after
        → InCatalog db
        → Authenticates (of_key hash_token verify_access_token answer after)
    of_key-Authenticates now found db (rejected reason) after at judged all =
        (Judged-InCatalog now found db (rejected reason) after judged all, tt)
    of_key-Authenticates now found db (authenticated id org scopes) after at judged all =
        let (key, is, _, _, _, _, own, _) = judged in
        (
          Judged-InCatalog now found db (authenticated id org scopes) after judged all,
          λ p here. all key.id key (at key is) p (subst (Among p) own here),
        )

    of_credential-Authenticates :
        (noted : Bool) (now : ℕ) (credential : String) (rest : Option String) (db : Db t)
        → InCatalog db
        → Ends Authenticates
            (of_credential hash_token verify_access_token noted now credential rest db)
    of_credential-Authenticates noted now credential none db all =
        token (verify_access_token credential)
      where
        token : (o : Option ℕ) → Ends Authenticates (of_token hash_token verify_access_token o db)
        token none = record { holds = (all, tt) }
        token (some id) = record { holds = (all, tt) }
    of_credential-Authenticates noted now credential (some rest) db all =
        let (answer, after, e, judged) =
          authenticate-Judged t noted now (hash_token credential) db in
        record {
          holds = rw e (
              of_key-Authenticates now _ db answer after
                (λ key found. (t.api_key.find_first-some _ db.api_keys key found).1) judged all);
        }

    pub require_auth-Authenticates :
        (noted : Bool) (now : ℕ) (header : Option String) (db : Db t)
        → InCatalog db
        → Ends Authenticates (require_auth hash_token verify_access_token noted now header db)
    unfolding require_auth
    require_auth-Authenticates noted now header db all =
        or_throw-then db _ _ _ (λ _. record { holds = (all, tt) })
          λ credential _. of_credential-Authenticates noted now credential _ db all
