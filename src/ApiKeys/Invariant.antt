-- ===== src/ApiKeys/Invariant.antt =====
-- No key ever has a scope outside the catalog, so no request with a key passes for more.
use tasks_platform.Common.{
  ℕ, ==_iff, ◌≡◌, inl, inr, refl, ap, subst, String, Bool, true, false, Option, none, some, List,
  [], ◌∷◌, arith, Among, get_elem?, Bool-cases, ◌==◌,
}
use tasks_platform.Authorization.Permissions.{
  permissions, get_elem?-permissions, Role, Permission, organization_update, organization_delete,
  ownership_transfer, member_update_role, member_remove, member_leave, invitation_create,
  invitation_list, invitation_revoke, webhook_manage, apikey_manage, includes, permission_index,
}
use tasks_platform.Authorization.Actor.{is_permission_grantable_to_api_key}
use tasks_platform.Database.Client.{Db, Prisma, ok}
use tasks_platform.Database.Steps.{Ends, reads-then, held-then}
use tasks_platform.Database.Outcomes.{OnOk}
use tasks_platform.Members.Gate.{AuthContext, api_key_auth, MembershipContext, require_user_actor}
use tasks_platform.Members.Controller.{admit}
use tasks_platform.Members.Admission.{
  Admitted, admit-Admitted, admit-reads, require_user_actor-reads,
}
use tasks_platform.ApiKeys.Authentication.{require_auth}
use tasks_platform.ApiKeys.Controller.{Draws, Request, serve, serve_all}
use tasks_platform.ApiKeys.Catalog.{
  InCatalog, Scoped, create-InCatalog, revoke-InCatalog, require_auth-Authenticates,
}

-- A scope that is listed is among the scopes.
includes-Among :
    (ps : List Permission) (p : Permission)
    → includes ps p ≡ true
    → (q : Permission) × Among q ps × (permission_index q ≡ permission_index p)
unfolding includes
includes-Among [] p h = absurd (cc)
includes-Among (q ∷ qs) p h = elim (Bool-cases (permission_index q == permission_index p)) [
  | inl same ↦ (q, inl refl, (==_iff _ _).0 same)
  | inr other ↦ let (r, at, same) = includes-Among qs p (ground arith) in (r, inr at, same)
]

permission_index-injective : (p q : Permission) → permission_index p ≡ permission_index q → p ≡ q
permission_index-injective p q same =
    cc (get_elem?-permissions p, get_elem?-permissions q, ap (λ i. get_elem? permissions i) same)

-- What only a member may do.
abbrev pub reserved : List Permission
reserved =
    organization_update ∷ organization_delete ∷ ownership_transfer ∷ member_update_role
    ∷ member_remove ∷ member_leave ∷ invitation_create ∷ invitation_list ∷ invitation_revoke
    ∷ webhook_manage ∷ apikey_manage ∷ []

-- None of these is one that keys can have.
abbrev NoneGrantable : List Permission → Type 0
NoneGrantable [] = Unit {0}
NoneGrantable (q ∷ qs) = (is_permission_grantable_to_api_key q ≡ false) × NoneGrantable qs

refused_all :
    (ps : List Permission) (p : Permission)
    → NoneGrantable ps
    → is_permission_grantable_to_api_key p ≡ true
    → ¬ Among p ps
refused_all [] p refused grantable among = among
refused_all (q ∷ qs) p (first, rest) grantable (inl same) =
    absurd (cc (first, grantable, ap is_permission_grantable_to_api_key same))
refused_all (q ∷ qs) p (first, rest) grantable (inr later) = refused_all qs p rest grantable later

reserved_refused : NoneGrantable reserved
unfolding is_permission_grantable_to_api_key includes
reserved_refused =
    (refl, (refl, (refl, (refl, (refl, (refl, (refl, (refl, (refl, (refl, (refl, tt)))))))))))

grantable-reserved :
    (p : Permission) → is_permission_grantable_to_api_key p ≡ true → ¬ Among p reserved
grantable-reserved p grantable = refused_all reserved p reserved_refused grantable

module _ (prisma : Prisma) (hash_token : String → String)
    (verify_access_token : String → Option ℕ) where
  open prisma use {tables}

  authenticated_state :
      (noted : Bool) (now : ℕ) (header : Option String) (db : Db tables)
      → InCatalog tables db
      → Ends
          (λ r. InCatalog tables r.1)
          (require_auth hash_token verify_access_token noted now header db)
  authenticated_state noted now header db all = record {
    holds =
        (require_auth-Authenticates tables hash_token verify_access_token noted now header db
          all).holds.0;
  }

  serve-InCatalog :
      (draws : Draws) (header : Option String) (request : Request) (db : Db tables)
      → InCatalog tables db
      → Ends
          (λ r. InCatalog tables r.1)
          (serve prisma hash_token verify_access_token draws header request db)
  unfolding serve
  serve-InCatalog draws header (Request.create org name scopes expires_at) db all =
      held-then (InCatalog tables) _ _ (authenticated_state draws.noted draws.now header db all)
        λ (auth : AuthContext) d all'.
          reads-then d (admit prisma (some auth) org apikey_manage) _
            (admit-reads prisma (some auth) org apikey_manage d) (λ e _. record { holds = all' })
            λ (m : MembershipContext) _.
              reads-then d (require_user_actor (some auth) (some m)) _
                (require_user_actor-reads prisma (some auth) (some m) d)
                (λ e _. record { holds = all' })
                λ (creator : ℕ × Role) _.
                  held-then (InCatalog tables) _ _
                    (create-InCatalog tables draws.new m.organization_id creator.0 creator.1 name
                      scopes expires_at d all')
                    (λ _ d' all''. record { holds = all'' })
  serve-InCatalog draws header (Request.revoke org id) db all =
      held-then (InCatalog tables) _ _ (authenticated_state draws.noted draws.now header db all)
        λ (auth : AuthContext) d all'.
          reads-then d (admit prisma (some auth) org apikey_manage) _
            (admit-reads prisma (some auth) org apikey_manage d) (λ e _. record { holds = all' })
            λ (m : MembershipContext) _.
              revoke-InCatalog tables draws.now m.organization_id id d all'

  -- Whatever requests are made, with whatever headers, every key that is stored has scopes of the catalog for
  -- keys only, if that was so before.
  pub serve_all-InCatalog :
      (requests : List (Draws × Option String × Request)) (db : Db tables)
      → InCatalog tables db
      → InCatalog tables (serve_all prisma hash_token verify_access_token requests db)
  unfolding serve_all
  serve_all-InCatalog [] db all = all
  serve_all-InCatalog ((draws, header, request) ∷ rest) db all =
      serve_all-InCatalog rest _ (serve-InCatalog draws header request db all).holds

  grantable_from :
      (noted : Bool) (now : ℕ) (header : Option String) (db after : Db tables)
      (id key_organization_id : ℕ) (scopes : List Permission) (organization_id : ℕ)
      (permission : Permission) (d d' : Db tables) (m : MembershipContext)
      → InCatalog tables db
      → require_auth hash_token verify_access_token noted now header db
        ≡ (ok (api_key_auth id key_organization_id scopes), after)
      → admit prisma
          (some (api_key_auth id key_organization_id scopes))
          organization_id
          permission
          d
        ≡ (ok m, d')
      → is_permission_grantable_to_api_key permission ≡ true
  grantable_from noted now header db after id key_org scopes org p d d' m all e admitted =
      let known =
        require_auth-Authenticates tables hash_token verify_access_token noted now header db all in
      let scoped : Scoped tables hash_token verify_access_token (api_key_auth id key_org scopes) =
        subst (OnOk (λ auth _. Scoped tables hash_token verify_access_token auth)) e
          known.holds.1 in
      let (a, is, _, let_in) =
        admit-Admitted prisma (some (api_key_auth id key_org scopes)) org p d d' m admitted in
      let same_auth : a ≡ api_key_auth id key_org scopes = cc in
      let held : includes scopes p ≡ true =
        (subst (λ x. Admitted prisma d x org p m) same_auth let_in).1 in
      let (q, at, same) = includes-Among scopes p held in
      subst (λ r. is_permission_grantable_to_api_key r ≡ true) (permission_index-injective q p same)
        (scoped q at)

  -- In a database that any requests on keys have made out of one without keys, a request with a key passes
  -- the two middlewares only for a permission of the catalog for keys. It never does for one to change or
  -- delete the organization or hand it over, to change roles, remove members or leave, to invite or to see or
  -- revoke invitations, or to manage webhooks or keys.
  pub admit-grantable :
      (requests : List (Draws × Option String × Request)) (start : Db tables) (noted : Bool)
      (now : ℕ) (header : Option String) (after : Db tables) (id key_organization_id : ℕ)
      (scopes : List Permission) (organization_id : ℕ) (permission : Permission) (d d' : Db tables)
      (m : MembershipContext)
      → ((k : ℕ) → tables.api_key.get k start.api_keys ≡ none)
      → require_auth hash_token verify_access_token noted now header
          (serve_all prisma hash_token verify_access_token requests start)
        ≡ (ok (api_key_auth id key_organization_id scopes), after)
      → admit prisma
          (some (api_key_auth id key_organization_id scopes))
          organization_id
          permission
          d
        ≡ (ok m, d')
      → (is_permission_grantable_to_api_key permission ≡ true) × (¬ Among permission reserved)
  admit-grantable requests start noted now header after id key_org scopes org p d d' m no_keys e
        admitted =
      let grantable : is_permission_grantable_to_api_key p ≡ true =
        grantable_from noted now header
          (serve_all prisma hash_token verify_access_token requests start) after id key_org scopes
          org p d d' m
          (serve_all-InCatalog requests start λ k key there. absurd (cc (no_keys k, there))) e
          admitted in
      (grantable, grantable-reserved p grantable)
