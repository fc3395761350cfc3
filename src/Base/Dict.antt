-- ===== src/Base/Dict.antt =====
-- Go's maps as association lists, in the order of insertion; and stores, from references to objects.
use sshole.Base.Names.{ℕ, ◌≡◌, refl, ◌≢◌, Option, none, some, List, [], ◌∷◌, arith, ◌+◌, ◌≤◌}
use sshole.Base.Equality.{Eq, ◌==◌, if◌then◌else◌, nat_eq}
use sshole.Base.Lists.{length}

abbrev pub Dict {ℓ κ} : Type ℓ → Type κ → Type (ℓ ⊔ κ)
Dict K V = List (K × V)

-- A store: what each reference points to.
abbrev pub Store {ℓ} : Type ℓ → Type ℓ
Store A = ℕ → A

-- `*r = v`
abbrev pub update {ℓ} : {A : Type ℓ} → Store A → ℕ → A → Store A
update s r v q = if q == r then v else s q

module _ {ℓ κ} {K : Type ℓ} {V : Type κ} ⦃e : Eq K⦄ where
  -- `v, ok := m[k]`
  unfoldable pub lookup : K → Dict K V → Option V
  lookup k [] = none
  lookup k ((j, v) ∷ d) = if k == j then some v else lookup k d

  -- `m[k] = v`
  unfoldable pub insert : K → V → Dict K V → Dict K V
  insert k v [] = (k, v) ∷ []
  insert k v ((j, w) ∷ d) = if k == j then (k, v) ∷ d else (j, w) ∷ insert k v d

  -- `delete(m, k)`. Every entry of the key goes; a Go map has at most one.
  unfoldable pub erase : K → Dict K V → Dict K V
  erase k [] = []
  erase k ((j, w) ∷ d) = let rest = erase k d in if k == j then rest else (j, w) ∷ rest

  pub lookup-nil : (k : K) → lookup k [] ≡ none
  unfolding lookup
  lookup-nil k = refl

  pub lookup-cons :
      (k j : K) (v : V) (d : Dict K V)
      → lookup k ((j, v) ∷ d) ≡ (if k == j then some v else lookup k d)
  unfolding lookup
  lookup-cons k j v d = refl

  pub lookup-insert :
      (j k : K) (v : V) (d : Dict K V)
      → lookup j (insert k v d) ≡ (if j == k then some v else lookup j d)
  unfolding insert lookup
  lookup-insert j k v [] = refl
  lookup-insert j k v (_ ∷ d) = ground (arith, lookup-insert j k v d)

  pub lookup-erase :
      (j k : K) (d : Dict K V) → lookup j (erase k d) ≡ (if j == k then none else lookup j d)
  unfolding erase lookup
  lookup-erase j k [] = ground arith
  lookup-erase j k (_ ∷ d) = ground (arith, lookup-erase j k d)

  -- No key has two entries, as in every Go map.
  abbrev pub NodupKeys : Dict K V → Type κ
  NodupKeys [] = Unit
  NodupKeys ((k, _) ∷ d) = (lookup k d ≡ none) × NodupKeys d

  pub insert-NodupKeys : (k : K) (v : V) (d : Dict K V) → NodupKeys d → NodupKeys (insert k v d)
  unfolding insert
  insert-NodupKeys k v [] _ = (lookup-nil k, tt)
  insert-NodupKeys k v ((j, _) ∷ d) (fresh, u) =
      ground (arith, insert-NodupKeys k v d u, lookup-insert j k v d)

  pub length-erase_le : (k : K) (d : Dict K V) → length (erase k d) ≤ length d
  unfolding erase
  length-erase_le k [] = omega arith
  length-erase_le k (_ ∷ d) = ground (arith, length-erase_le k d)

  -- Deleting a key that is there shortens the map.
  pub length-erase : (k : K) (d : Dict K V) → lookup k d ≢ none → length (erase k d) + 1 ≤ length d
  unfolding erase lookup
  length-erase k [] h = absurd (h refl)
  length-erase k ((j, w) ∷ d) h = ground (arith, length-erase k d, length-erase_le k d)
