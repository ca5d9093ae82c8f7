-- ===== src/Se050/ObjectStore/History.antt =====
-- SE050Sim/se050-sim/src/object_store: operations in sequence, and an object's metadata.
use simulators.Common.{
  ℕ, ◌≡◌, refl, sym, ap, ◌∙◌, Bool, true, false, not, Option, none, some, List, [], ◌∷◌, arith, All,
  ◌==◌, ==→eq, Bool-cases, Option-cases, inl, inr,
}
use simulators.Common.Maps.{lookup, lookup-insert, lookup-erase}
use simulators.Se050.ObjectStore.{
  ObjectStore, insert_object, set_creation_metadata, metadata, policy_allows, remove, clear,
  curve_create, curve_add_param, curve_delete, set_scp_required, set_platform_scp_config, exists,
  is_some,
}
use simulators.Se050.ObjectStore.Types.{ObjectMetadata, SecureObject}
use simulators.Se050.Scp03.Keys.{Scp03Config}

-- The operations that write to the store.
pub data Operation : Type 0 where
  inserted : ℕ → SecureObject → Operation
  created : ℕ → Option (List ℕ) → ℕ → Operation
  removed : ℕ → Operation
  cleared : Operation
  curve_created : ℕ → Operation
  param_added : ℕ → ℕ → Operation
  curve_deleted : ℕ → Operation
  scp_set : Bool → Operation
  keys_set : Scp03Config → Operation

unfoldable pub perform : Operation → ObjectStore → ObjectStore
perform (inserted id obj) s = insert_object id obj s
perform (created id policy origin) s = set_creation_metadata id policy origin s
perform (removed id) s = (remove id s).0
perform cleared s = clear s
perform (curve_created c) s = curve_create c s
perform (param_added c param) s = curve_add_param c param s
perform (curve_deleted c) s = (curve_delete c s).0
perform (scp_set required) s = set_scp_required required s
perform (keys_set config) s = set_platform_scp_config s config

unfoldable pub perform_all : List Operation → ObjectStore → ObjectStore
perform_all [] s = s
perform_all (o ∷ os) s = perform_all os (perform o s)

-- The object is neither removed nor cleared away.
unfoldable pub keeps : ℕ → Operation → Bool
keeps id (removed j) = not (j == id)
keeps id cleared = false
keeps id _ = true

unfoldable pub keeps_settings : Operation → Bool
keeps_settings (scp_set required) = false
keeps_settings (keys_set config) = false
keeps_settings _ = true

ec_only_add :
    (c param : ℕ) (s : ObjectStore) → (curve_add_param c param s).all_metadata ≡ s.all_metadata
unfolding curve_add_param
ec_only_add c param s = elim (Option-cases (lookup c s.ec_curves)) [
  | inl e ↦ rw (e, curve_add_param) refl
  | inr (mask, e) ↦ rw (e, curve_add_param) refl
]

ec_only_delete : (c : ℕ) (s : ObjectStore) → (curve_delete c s).0.all_metadata ≡ s.all_metadata
unfolding curve_delete
ec_only_delete c s = elim (Option-cases (lookup c s.ec_curves)) [
  | inl e ↦ rw (e, curve_delete) refl
  | inr (mask, e) ↦ rw (e, curve_delete) refl
]

different : (b : Bool) → not b ≡ true → b ≡ false
different b e = ground (arith, e)

metadata-perform :
    (o : Operation) (s : ObjectStore) (id : ℕ) (m : ObjectMetadata)
    → keeps id o ≡ true
    → metadata s id ≡ some m
    → metadata (perform o s) id ≡ some m
unfolding perform keeps metadata insert_object set_creation_metadata remove clear curve_create
    set_scp_required set_platform_scp_config
metadata-perform (inserted j obj) s id m k e = e
metadata-perform (created j policy origin) s id m k e =
    let fresh : ObjectMetadata = record { policy = policy; origin = origin } in
    elim (Option-cases (lookup j s.all_metadata)) [
      | inr (old, f) ↦ rw (f, set_creation_metadata) e
      | inl f ↦
          (let law = lookup-insert j id fresh s.all_metadata in
            elim (Bool-cases (j == id)) [
              | inr ne ↦ rw (f, set_creation_metadata, law, ne) e
              | inl eq ↦
                  (let same : j ≡ id = ==→eq j id eq in
                    let missing : lookup id s.all_metadata ≡ none =
                      (ap (λ (i : ℕ). lookup i s.all_metadata) (sym same) ∙ f) in
                    absurd cc)
            ])
    ]
metadata-perform (removed j) s id m k e = elim (Option-cases (lookup j s.objects)) [
  | inl f ↦ rw (f, perform, remove) e
  | inr (obj, f) ↦
      rw (f, perform, remove, lookup-erase j id s.all_metadata, different (j == id) k) e
]
metadata-perform cleared s id m k e = absurd cc
metadata-perform (curve_created c) s id m k e = e
metadata-perform (param_added c param) s id m k e = ap (lookup id) (ec_only_add c param s) ∙ e
metadata-perform (curve_deleted c) s id m k e = ap (lookup id) (ec_only_delete c s) ∙ e
metadata-perform (scp_set required) s id m k e = e
metadata-perform (keys_set config) s id m k e = e

-- The policy and the origin of an object are fixed by its first creation: no operation but its
-- removal and clearing, however they follow each other, changes its metadata, and the answers of the
-- policy are those of before.
pub metadata-perform_all :
    (os : List Operation) (s : ObjectStore) (id : ℕ) (m : ObjectMetadata)
    → All (λ (o : Operation). keeps id o ≡ true) os
    → metadata s id ≡ some m
    → (metadata (perform_all os s) id ≡ some m)
      × ((permission : ℕ)
          → policy_allows (perform_all os s) id permission ≡ policy_allows s id permission)
unfolding perform_all policy_allows
metadata-perform_all [] s id m k e = (e, λ permission. refl)
metadata-perform_all (o ∷ os) s id m k e =
    let e' = metadata-perform o s id m k.0 e in
    let (kept, answers) = metadata-perform_all os (perform o s) id m k.1 e' in
    (
      kept,
      λ permission.
          answers permission
          ∙ ap (λ (t : Option ObjectMetadata). simulators.Se050.ObjectStore.allows t permission)
              (e' ∙ sym e),
    )

settings-perform :
    (o : Operation) (s : ObjectStore)
    → keeps_settings o ≡ true
    → ((perform o s).required ≡ s.required) × ((perform o s).platform_scp ≡ s.platform_scp)
unfolding perform keeps_settings insert_object set_creation_metadata remove clear curve_create
    curve_add_param curve_delete
settings-perform (inserted j obj) s k = (refl, refl)
settings-perform (created j policy origin) s k = elim (Option-cases (lookup j s.all_metadata)) [
  | inr (old, f) ↦ rw (f, set_creation_metadata) (refl, refl)
  | inl f ↦ rw (f, set_creation_metadata) (refl, refl)
]
settings-perform (removed j) s k = elim (Option-cases (lookup j s.objects)) [
  | inl f ↦ rw (f, perform, remove) (refl, refl)
  | inr (obj, f) ↦ rw (f, perform, remove) (refl, refl)
]
settings-perform cleared s k = (refl, refl)
settings-perform (curve_created c) s k = (refl, refl)
settings-perform (param_added c param) s k = elim (Option-cases (lookup c s.ec_curves)) [
  | inl f ↦ rw (f, curve_add_param) (refl, refl)
  | inr (mask, f) ↦ rw (f, curve_add_param) (refl, refl)
]
settings-perform (curve_deleted c) s k = elim (Option-cases (lookup c s.ec_curves)) [
  | inl f ↦ rw (f, perform, curve_delete) (refl, refl)
  | inr (mask, f) ↦ rw (f, perform, curve_delete) (refl, refl)
]
settings-perform (scp_set required) s k = absurd cc
settings-perform (keys_set config) s k = absurd cc

-- The demand for SCP03 and the rotated platform keys survive every history of the other operations,
-- clearing included.
pub settings-perform_all :
    (os : List Operation) (s : ObjectStore)
    → All (λ (o : Operation). keeps_settings o ≡ true) os
    → ((perform_all os s).required ≡ s.required)
      × ((perform_all os s).platform_scp ≡ s.platform_scp)
unfolding perform_all
settings-perform_all [] s k = (refl, refl)
settings-perform_all (o ∷ os) s k =
    let (a, b) = settings-perform o s k.0 in
    let (c, d) = settings-perform_all os (perform o s) k.1 in (c ∙ a, d ∙ b)

metadata-set_creation_metadata :
    (s : ObjectStore) (id : ℕ) (policy : Option (List ℕ)) (origin : ℕ)
    → metadata s id ≡ none
    → metadata (set_creation_metadata id policy origin s) id
      ≡ some (record { policy = policy; origin = origin })
unfolding metadata set_creation_metadata
metadata-set_creation_metadata s id policy origin e =
    let fresh : ObjectMetadata = record { policy = policy; origin = origin } in
    let same : (id == id) ≡ true = ground arith in
    rw (e, set_creation_metadata, lookup-insert id id fresh s.all_metadata, same) refl

existing : {A B : Type 0} (o : Option A) → o ≡ none → is_some o ≡ true → B
unfolding is_some
existing none e k = absurd cc
existing (some a) e k = absurd cc

-- An object that is removed is gone with its metadata, and its identifier can be created again with a
-- policy of its own.
pub metadata-remove :
    (s : ObjectStore) (id : ℕ) (policy : Option (List ℕ)) (origin : ℕ)
    → exists s id ≡ true
    → (exists (remove id s).0 id ≡ false)
      × (metadata (remove id s).0 id ≡ none)
      × (metadata (set_creation_metadata id policy origin (remove id s).0) id
          ≡ some (record { policy = policy; origin = origin }))
unfolding exists is_some metadata remove
metadata-remove s id policy origin h =
    let same : (id == id) ≡ true = ground arith in
    elim (Option-cases (lookup id s.objects)) [
      | inl e ↦ existing (lookup id s.objects) e h
      | inr (obj, e) ↦
          (let gone : metadata (remove id s).0 id ≡ none =
              rw (e, remove, lookup-erase id id s.all_metadata, same) refl in
            (
              rw (e, remove, lookup-erase id id s.objects, same) refl,
              gone,
              metadata-set_creation_metadata (remove id s).0 id policy origin gone,
            ))
    ]
