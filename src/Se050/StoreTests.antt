-- ===== src/Se050/StoreTests.antt =====
-- The theorems on the object store and on key rotation at concrete inputs.
use simulators.Common.{
  ℕ, ◌<◌, All, List, ◌≡◌, refl, true, false, none, some, [], ◌∷◌, ◌++◌, arith, take, replicate,
  ◌==◌,
}
use simulators.Common.Results.{ok}
use simulators.Se050.Aes.{AnyAes, any_aes, encrypt_block}
use simulators.Se050.Aes.Cbc.{size128}
use simulators.Se050.ChannelTests.{toy_ciphers, toy_ciphers-AllDocumented, platform_keys}
use simulators.Se050.Apdu.{success}
use simulators.Se050.Applet.{v7_2_0}
use simulators.Common.Maps.{lookup}
use simulators.Se050.Handlers.CryptoObject.{
  Hashes, handle_digest_init, handle_digest_final, handle_digest_oneshot,
}
use simulators.Se050.Handlers.Stream.{
  init_request, stream_request, oneshot_request, update_all, handle_digest_final-update_all,
}
use simulators.Se050.Handlers.Curve.{handle_create, is_param}
use simulators.Se050.Handlers.Provision.{create_request, upload_all, kinds, curve_ready-upload_all}
use simulators.Se050.ObjectStore.{
  curve_exists, ObjectStore, metadata, policy_allows, exists, curve_create, curve_ready,
  curve_params_complete,
}
use simulators.Se050.ObjectStore.Curves.{uploaded}
use simulators.Se050.ObjectStore.History.{
  inserted, created, removed, cleared, perform_all, keeps, keeps_settings, metadata-perform_all,
}
use simulators.Se050.ObjectStore.Types.{binary}
use simulators.Se050.Scp03.Keys.{put_keys}
use simulators.Se050.Scp03.Keys.Rotation.{IsKey, key_block, put_keys-key_block}

-- A store with one object of data, which has no policy.
abbrev one_object : ObjectStore
one_object = record {
  objects = (0x7FFF0201, binary (1 ∷ 2 ∷ [])) ∷ [];
  all_metadata = (0x7FFF0201, record { policy = none; origin = 1 }) ∷ [];
  ec_curves = [];
  crypto_objects = [];
  crypto_object_types = [];
  required = true;
  platform_scp = some platform_keys;
}

found_test : metadata one_object 0x7FFF0201 ≡ some (record { policy = none; origin = 1 })
unfolding metadata
found_test = refl

exists_test : exists one_object 0x7FFF0201 ≡ true
unfolding exists
exists_test = refl

kept_created : keeps 0x7FFF0201 (created 0x7FFF0201 (some (1 ∷ [])) 2) ≡ true
unfolding keeps
kept_created = refl

kept_removed : keeps 0x7FFF0201 (removed 5) ≡ true
unfolding keeps
kept_removed = refl

kept_inserted : keeps 0x7FFF0201 (inserted 0x7FFF0201 (binary [])) ≡ true
unfolding keeps
kept_inserted = refl

settled_removed : keeps_settings (removed 5) ≡ true
unfolding keeps_settings
settled_removed = refl

settled_cleared : keeps_settings cleared ≡ true
unfolding keeps_settings
settled_cleared = refl

metadata-perform_all_example :
    (metadata
        (perform_all
          (created 0x7FFF0201 (some (1 ∷ [])) 2 ∷ removed 5 ∷ inserted 0x7FFF0201 (binary []) ∷ [])
          one_object)
        0x7FFF0201
      ≡ some (record { policy = none; origin = 1 }))
    × ((permission : ℕ)
        → policy_allows
            (perform_all
              (created 0x7FFF0201 (some (1 ∷ [])) 2
                ∷ removed 5
                ∷ inserted 0x7FFF0201 (binary [])
                ∷ [])
              one_object)
            0x7FFF0201
            permission
          ≡ policy_allows one_object 0x7FFF0201 permission)
metadata-perform_all_example =
    metadata-perform_all
      (created 0x7FFF0201 (some (1 ∷ [])) 2 ∷ removed 5 ∷ inserted 0x7FFF0201 (binary []) ∷ [])
      one_object 0x7FFF0201 (record { policy = none; origin = 1 })
      (kept_created, (kept_removed, (kept_inserted, tt))) found_test

uploaded_test : uploaded 0 (16 ∷ 1 ∷ 2 ∷ 8 ∷ 4 ∷ []) ≡ curve_params_complete
unfolding uploaded
uploaded_test = refl

sevens-IsKey : IsKey (replicate 16 7)
sevens-IsKey = record {
  length_key = refl;
  is_bytes = (b, (b, (b, (b, (b, (b, (b, (b, (b, (b, (b, (b, (b, (b, (b, (b, tt))))))))))))))));
}
  where
    b : 7 < 256
    b = omega arith

put_keys-key_block_example :
    (old a b c : AnyAes toy_ciphers) × (any_aes toy_ciphers platform_keys.dek ≡ some old)
    × (put_keys toy_ciphers platform_keys platform_keys.kvn 0x81 (
          0x0C
          ∷ (key_block toy_ciphers old (replicate 16 7) a
              ++ (key_block toy_ciphers old (replicate 16 7) b
                  ++ (key_block toy_ciphers old (replicate 16 7) c ++ []))))
        ≡ ok (
          record { kvn = 0x0C; enc = replicate 16 7; mac = replicate 16 7; dek = replicate 16 7 },
          0x0C
              ∷ (take 3 (encrypt_block toy_ciphers a (replicate 16 1))
                  ++ (take 3 (encrypt_block toy_ciphers b (replicate 16 1))
                      ++ (take 3 (encrypt_block toy_ciphers c (replicate 16 1)) ++ []))),
        ))
    × (any_aes toy_ciphers (replicate 16 7) ≡ some a)
    × (any_aes toy_ciphers (replicate 16 7) ≡ some b)
    × (any_aes toy_ciphers (replicate 16 7) ≡ some c)
put_keys-key_block_example =
    put_keys-key_block toy_ciphers toy_ciphers-AllDocumented platform_keys 16 0x0C (replicate 16 7)
      (replicate 16 7) (replicate 16 7) size128 refl sevens-IsKey sevens-IsKey sevens-IsKey

missing_test : curve_exists one_object 5 ≡ false
unfolding curve_exists
missing_test = refl

-- The five kinds, with values that the simulator does not keep.
abbrev five_params : List (ℕ × List ℕ)
five_params = (16, 7 ∷ []) ∷ (1, 8 ∷ []) ∷ (2, []) ∷ (8, 9 ∷ []) ∷ (4, 1 ∷ 2 ∷ []) ∷ []

params_test : All (λ (x : ℕ × List ℕ). is_param x.0 ≡ true) five_params
unfolding is_param
params_test = (refl, (refl, (refl, (refl, (refl, tt)))))

curve_ready-upload_all_example :
    (s' : ObjectStore) × (handle_create v7_2_0 one_object (ok (create_request 5))
      ≡ (curve_create 5 one_object, success))
    × (upload_all 5 five_params (curve_create 5 one_object) ≡ some s')
    × (curve_ready s' 5 ≡ (uploaded 0 (kinds five_params) == curve_params_complete))
    × ((j : ℕ) → (5 == j) ≡ false → curve_ready s' j ≡ curve_ready one_object j)
curve_ready-upload_all_example =
    curve_ready-upload_all v7_2_0 5 five_params one_object (omega arith) (omega arith) missing_test
      params_test

-- A store with a crypto object of a digest's type.
abbrev digest_store : ObjectStore
digest_store = record one_object { crypto_object_types = (0x0102, (1, 4)) ∷ [] }

-- A stand-in for the digests.
abbrev toy_hashes : Hashes
toy_hashes = record {
  sha1 = λ m. m;
  sha224 = λ m. m;
  sha256 = λ m. m;
  sha384 = λ m. m;
  sha512 = λ m. m;
}

registered_test : lookup 0x0102 digest_store.crypto_object_types ≡ some (0x01, 4)
unfolding lookup
registered_test = refl

handle_digest_final-update_all_example :
    (s' s'' : ObjectStore) × (handle_digest_init digest_store (ok (init_request 0x0102))
      ≡ (s', success))
    × (update_all 0x0102 ((1 ∷ 2 ∷ []) ∷ (3 ∷ []) ∷ []) s' ≡ some s'')
    × ((handle_digest_final toy_hashes s'' (ok (stream_request 0x0102 (4 ∷ [])))).1
        ≡ handle_digest_oneshot toy_hashes (ok (oneshot_request 4 (1 ∷ 2 ∷ 3 ∷ 4 ∷ []))))
handle_digest_final-update_all_example =
    handle_digest_final-update_all toy_hashes 0x0102 4 ((1 ∷ 2 ∷ []) ∷ (3 ∷ []) ∷ []) (4 ∷ [])
      digest_store (omega arith) registered_test
