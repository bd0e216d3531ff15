-- ===== src/ApiKeys/Scopes.antt =====
-- What the scopes of a key can be.
use tasks_platform.Common.{
  ℕ, ◌≡◌, ◌↔◌, ◌⊎◌, inl, inr, refl, sym, ap, subst, String, Bool, true, false, Option, none, some,
  List, [], ◌∷◌, arith, str_eq, eq_iff, Among, Option-cases, Bool-cases, filter_none, is_some,
}
use tasks_platform.Authorization.Permissions.{Role, Permission, is_permission, role_has_permission}
use tasks_platform.Authorization.Actor.{actor_has_permission, is_permission_grantable_to_api_key}
use tasks_platform.Database.Integrations.{ApiKey}
use tasks_platform.Database.Client.{Tables, Db}
use tasks_platform.Database.Steps.{Ends, ensure-then}
use tasks_platform.Database.Outcomes.{Atomic, refused, stored_last}
use tasks_platform.ApiKeys.Service
use tasks_platform.ApiKeys.Service.{
  NewApiKey, contains, unique, unique_from, known, add_known, api_key_row, create_row,
}

contains-Among : (ys : List String) (x : String) → contains ys x ≡ true → Among x ys
unfolding contains
contains-Among [] x h = absurd (cc)
contains-Among (y ∷ ys) x h = elim (Bool-cases (str_eq y x)) [
  | inl same ↦ inl (sym ((eq_iff y x).0 same))
  | inr other ↦ inr (contains-Among ys x (ground arith))
]

-- The set of the texts holds just the texts, less those that were seen.
unique_from-Among :
    (seen xs : List String) (x : String) → Among x (unique_from seen xs) → Among x xs
unfolding unique_from
unique_from-Among seen [] x h = absurd h
unique_from-Among seen (y ∷ ys) x h =
    tested (contains seen y) h (unique_from-Among seen ys x) (unique_from-Among (y ∷ seen) ys x)
  where
    tested :
        (b : Bool)
        → Among x (elim b [ true ↦ unique_from seen ys | false ↦ y ∷ unique_from (y ∷ seen) ys ])
        → (Among x (unique_from seen ys) → Among x ys)
        → (Among x (unique_from (y ∷ seen) ys) → Among x ys)
        → Among x (y ∷ ys)
    tested true h old new = inr (old h)
    tested false (inl same) old new = inl same
    tested false (inr later) old new = inr (new later)

unique_from_all :
    (seen xs : List String) (x : String) → Among x xs → Among x (unique_from seen xs) ⊎ Among x seen
unfolding unique_from
unique_from_all seen [] x h = absurd h
unique_from_all seen (y ∷ ys) x h =
    tested (contains seen y) refl (unique_from_all seen ys x) (unique_from_all (y ∷ seen) ys x)
  where
    seen_before :
        Among x (y ∷ ys)
        → Among y seen
        → (Among x ys → Among x (unique_from seen ys) ⊎ Among x seen)
        → Among x (unique_from seen ys) ⊎ Among x seen
    seen_before (inl same) there rest = inr (subst (λ z. Among z seen) (sym same) there)
    seen_before (inr later) there rest = rest later

    placed :
        Among x (unique_from (y ∷ seen) ys) ⊎ Among x (y ∷ seen)
        → Among x (y ∷ unique_from (y ∷ seen) ys) ⊎ Among x seen
    placed (inl kept) = inl (inr kept)
    placed (inr (inl same)) = inl (inl same)
    placed (inr (inr before)) = inr before

    in_front :
        Among x (y ∷ ys)
        → (Among x ys → Among x (unique_from (y ∷ seen) ys) ⊎ Among x (y ∷ seen))
        → Among x (y ∷ unique_from (y ∷ seen) ys) ⊎ Among x seen
    in_front (inl same) rest = inl (inl same)
    in_front (inr later) rest = placed (rest later)

    tested :
        (b : Bool)
        → contains seen y ≡ b
        → (Among x ys → Among x (unique_from seen ys) ⊎ Among x seen)
        → (Among x ys → Among x (unique_from (y ∷ seen) ys) ⊎ Among x (y ∷ seen))
        → Among x (elim b [ true ↦ unique_from seen ys | false ↦ y ∷ unique_from (y ∷ seen) ys ])
          ⊎ Among x seen
    tested true old before after = seen_before h (contains-Among seen y old) before
    tested false new before after = in_front h after

unique-Among : (xs : List String) (x : String) → Among x (unique xs) ↔ Among x xs
unique-Among xs x = (
  unique_from-Among [] xs x,
  λ h. elim (unique_from_all [] xs x h) [ inl there ↦ there | inr none_seen ↦ absurd none_seen ],
)

add_known-Among :
    (o : Option Permission) (ps : List Permission) (p : Permission)
    → Among p (add_known o ps) ↔ ((o ≡ some p) ⊎ Among p ps)
add_known-Among none ps p = (λ h. inr h, either)
  where
    either : (none ≡ some p) ⊎ Among p ps → Among p ps
    either (inl e) = absurd (cc)
    either (inr there) = there
add_known-Among (some q) ps p = (to, from_either)
  where
    to : Among p (q ∷ ps) → (some q ≡ some p) ⊎ Among p ps
    to (inl same) = inl (ap some (sym same))
    to (inr there) = inr there

    from_either : (some q ≡ some p) ⊎ Among p ps → Among p (q ∷ ps)
    from_either (inl e) = inl (cc)
    from_either (inr there) = inr there

known-Among :
    (xs : List String) (p : Permission)
    → Among p (known xs) ↔ ((x : String) × Among x xs × (is_permission x ≡ some p))
unfolding known
known-Among [] p = (λ h. absurd h, λ (x, h, e). absurd h)
known-Among (y ∷ ys) p = (
  λ h. elim ((add_known-Among (is_permission y) (known ys) p).0 h) [
    | inl e ↦ (y, inl refl, e)
    | inr later ↦ let (x, there, e) = (known-Among ys p).0 later in (x, inr there, e)
  ],
  λ (x, there, e).
      (add_known-Among (is_permission y) (known ys) p).1
        (found x there e (λ later. (known-Among ys p).1 (x, later, e))),
)
  where
    found :
        (x : String)
        → Among x (y ∷ ys)
        → is_permission x ≡ some p
        → (Among x ys → Among p (known ys))
        → (is_permission y ≡ some p) ⊎ Among p (known ys)
    found x (inl same) e rest = inl (subst (λ z. is_permission z ≡ some p) same e)
    found x (inr later) e rest = inr (rest later)

module _ (t : Tables) where
  -- The row of a key that was created, and what its scopes are.
  abbrev pub Granted :
      NewApiKey → ℕ → ℕ → Role → String → List String → Option ℕ → Db t → ApiKey → Db t → Type 0
  Granted new organization_id creator_id creator_role name scopes expires_at db key after =
      (rows : t.api_key.Rows) × (permissions : List Permission) × (key
        ≡ api_key_row new organization_id creator_id name permissions expires_at)
      × (t.api_key.create key db.api_keys ≡ some rows)
      × (after ≡ record db { api_keys = rows })
      × ((x : String)
          → Among x scopes
          → (p : Permission) × (is_permission x ≡ some p) × Among p permissions)
      × ((p : Permission)
          → Among p permissions
          → ((x : String) × Among x scopes × (is_permission x ≡ some p))
            × (role_has_permission creator_role p ≡ true)
            × (is_permission_grantable_to_api_key p ≡ true))

  -- Creating a key writes nothing, or: its row is stored, in the organization, and its scopes are just the
  -- permissions that the texts spell, each of which its creator's role has and a key may be granted.
  pub create-Granted :
      (new : NewApiKey) (organization_id creator_id : ℕ) (creator_role : Role) (name : String)
      (scopes : List String) (expires_at : Option ℕ) (db : Db t)
      → Ends
          (Atomic db
            (Granted new organization_id creator_id creator_role name scopes expires_at db))
          (Service.create new organization_id creator_id creator_role name scopes expires_at db)
  unfolding Service.create create_row actor_has_permission
  create-Granted new org creator role name scopes expires_at db =
      ensure-then db _ _ _ (λ _. refused)
        λ all_known.
          ensure-then db _ _ _ (λ _. refused)
            λ held.
              ensure-then db _ _ _ (λ _. refused)
                λ grantable.
                  stored_last db _ _ _ (λ _. refused)
                    λ rows e. record {
                      holds = (
                        rows,
                        known (unique scopes),
                        refl,
                        e,
                        refl,
                        (λ x there. elim (Option-cases (is_permission x)) [
                          | inl absent ↦ absurd (
                              ground (
                                arith,
                                filter_none (λ scope. is_some (is_permission scope)) (unique scopes)
                                    x all_known ((unique-Among scopes x).1 there),
                              ))
                          | inr (p, spells) ↦ (
                            p,
                            spells,
                            (known-Among (unique scopes) p).1
                                (x, (unique-Among scopes x).1 there, spells),
                          )
                        ]),
                        λ p there.
                            let (x, at, spells) = (known-Among (unique scopes) p).0 there in
                            (
                              (x, (unique-Among scopes x).0 at, spells),
                              filter_none _ (known (unique scopes)) p held there,
                              filter_none _ (known (unique scopes)) p grantable there,
                            ),
                      );
                    }
