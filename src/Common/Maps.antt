-- ===== src/Common/Maps.antt =====
-- Rust's BTreeMap and HashMap with numbers as keys, as association lists. No code here depends on
-- the order of the entries.
use simulators.Common.{
  ℕ, ◌≡◌, refl, sym, subst, ◌∙◌, ◌≢◌, inl, inr, Bool-cases, ==→eq, eq→==, ne→==, Option, none, some,
  List, [], ◌∷◌, arith, ◌==◌, if◌then◌else◌,
}

module _ {ℓ} {V : Type ℓ} where
  -- `m.get(&k)`.
  unfoldable pub lookup : ℕ → List (ℕ × V) → Option V
  lookup k [] = none
  lookup k ((j, v) ∷ m) = if j == k then some v else lookup k m

  -- `m.remove(&k)`.
  unfoldable pub erase : ℕ → List (ℕ × V) → List (ℕ × V)
  erase k [] = []
  erase k ((j, v) ∷ m) = let rest = erase k m in if j == k then rest else (j, v) ∷ rest

  -- `m.insert(k, v)`.
  unfoldable pub insert : ℕ → V → List (ℕ × V) → List (ℕ × V)
  unfolding erase
  insert k v m = (k, v) ∷ erase k m

module _ {ℓ} {V : Type ℓ} where
  pub lookup-erase :
      (k j : ℕ) (m : List (ℕ × V)) → lookup j (erase k m) ≡ (if k == j then none else lookup j m)
  unfolding lookup erase
  lookup-erase k j [] = ground arith
  lookup-erase k j ((i, v) ∷ m) = ground (arith, lookup-erase k j m)

  pub lookup-insert :
      (k j : ℕ) (v : V) (m : List (ℕ × V))
      → lookup j (insert k v m) ≡ (if k == j then some v else lookup j m)
  unfolding lookup insert
  lookup-insert k j v m = ground (arith, lookup-erase k j m)

  pub lookup-insert_self : (k : ℕ) (v : V) (m : List (ℕ × V)) → lookup k (insert k v m) ≡ some v
  lookup-insert_self k v m = lookup-insert k k v m ∙ rw (eq→== k k refl) refl

  pub lookup-insert_ne :
      (k j : ℕ) (v : V) (m : List (ℕ × V)) → k ≢ j → lookup j (insert k v m) ≡ lookup j m
  lookup-insert_ne k j v m h = lookup-insert k j v m ∙ rw (ne→== k j h) refl

  pub lookup-erase_ne : (k j : ℕ) (m : List (ℕ × V)) → k ≢ j → lookup j (erase k m) ≡ lookup j m
  lookup-erase_ne k j m h = lookup-erase k j m ∙ rw (ne→== k j h) refl

  -- A key that is there is not one that is not.
  pub absent_ne :
      {k j : ℕ} {v : V} (m : List (ℕ × V)) → lookup k m ≡ none → lookup j m ≡ some v → k ≢ j
  absent_ne {k} m n s e = cc

  -- A predicate on the entries of a map.
  abbrev pub Entries {κ} : (ℕ → V → Type κ) → List (ℕ × V) → Type (ℓ ⊔ κ)
  Entries P m = (j : ℕ) (v : V) → lookup j m ≡ some v → P j v

  pub Entries-insert {κ} :
      (P : ℕ → V → Type κ) (k : ℕ) (v : V) (m : List (ℕ × V))
      → P k v
      → Entries P m
      → Entries P (insert k v m)
  Entries-insert P k v m p h j w e = elim (Bool-cases (k == j)) [
    | inl t ↦
        let q : k ≡ j = ==→eq k j t in
        let f : some v ≡ some w = sym (lookup-insert k j v m ∙ rw t refl) ∙ e in
        let r : v ≡ w = cc in subst (λ (i : ℕ). P i w) q (subst (λ (u : V). P k u) r p)
    | inr f ↦ h j w (sym (lookup-insert k j v m ∙ rw f refl) ∙ e)
  ]

  pub Entries-erase {κ} :
      (P : ℕ → V → Type κ) (k : ℕ) (m : List (ℕ × V)) → Entries P m → Entries P (erase k m)
  Entries-erase P k m h j w e = elim (Bool-cases (k == j)) [
    | inl t ↦ absurd (let f : none ≡ some w = sym (lookup-erase k j m ∙ rw t refl) ∙ e in cc)
    | inr f ↦ h j w (sym (lookup-erase k j m ∙ rw f refl) ∙ e)
  ]
