-- ===== src/Prelude/Dict.antt =====
-- Python's `dict` with string keys, in insertion order.
use project_fifty.Prelude.{
  ◌||◌, eq_refl, String, ◌≡◌, refl, Option, none, some, List, [], ◌∷◌, map, arith, str_eq, eq_iff,
  Bool, true, false, if◌then◌else◌,
}

abbrev pub Dict {ℓ} : Type ℓ → Type ℓ
Dict V = List (String × V)

module _ {ℓ} {V : Type ℓ} where
  -- `d.get(k)`
  unfoldable pub lookup : String → Dict V → Option V
  lookup k [] = none
  lookup k ((j, v) ∷ d) = if str_eq j k then some v else lookup k d

  -- `k in d`
  unfoldable pub has_key : String → Dict V → Bool
  unfolding lookup
  has_key k d = elim (lookup k d) [ none ↦ false | some _ ↦ true ]

  -- `d.get(k, default)`
  unfoldable pub lookup_or : V → String → Dict V → V
  unfolding lookup
  lookup_or v k d = elim (lookup k d) [ none ↦ v | some w ↦ w ]

  -- `d[k] = v`: an old key keeps its place
  unfoldable pub insert : String → V → Dict V → Dict V
  insert k v [] = (k, v) ∷ []
  insert k v ((j, w) ∷ d) = if str_eq j k then (j, v) ∷ d else (j, w) ∷ insert k v d

  -- `del d[k]`
  unfoldable pub erase : String → Dict V → Dict V
  erase k [] = []
  erase k ((j, w) ∷ d) = if str_eq j k then d else (j, w) ∷ erase k d

  -- `d.setdefault(k, v)`, for the dict that it leaves
  unfoldable pub set_default : String → V → Dict V → Dict V
  unfolding lookup insert
  set_default k v d = elim (lookup k d) [ none ↦ insert k v d | some _ ↦ d ]

  -- `d.values()`
  unfoldable pub values : Dict V → List V
  values = map (λ e. e.1)

  pub lookup-insert :
      (k j : String) (v : V) (d : Dict V)
      → lookup j (insert k v d) ≡ (if str_eq k j then some v else lookup j d)
  unfolding lookup insert
  lookup-insert k j v [] = refl
  lookup-insert k j v ((i, w) ∷ d) =
      ground (arith, eq_iff k j, eq_iff i k, eq_iff i j, lookup-insert k j v d)

  -- A second write to a key replaces the first.
  pub insert-insert : (k : String) (v w : V) (d : Dict V) → insert k w (insert k v d) ≡ insert k w d
  unfolding insert
  insert-insert k v w [] = ground (arith, eq_iff k k)
  insert-insert k v w ((i, u) ∷ d) = ground (arith, insert-insert k v w d)

  pub has_key-insert :
      (k j : String) (v : V) (d : Dict V) → has_key j (insert k v d) ≡ (str_eq k j || has_key j d)
  unfolding has_key
  has_key-insert k j v d = ground (arith, lookup-insert k j v d)

  pub has_key-set_default :
      (k j : String) (v : V) (d : Dict V)
      → has_key j (set_default k v d) ≡ (str_eq k j || has_key j d)
  unfolding set_default has_key
  has_key-set_default k j v d = ground (arith, lookup-insert k j v d, eq_iff k j)

  -- A key that is there keeps its value.
  pub set_default-has_key :
      (k : String) (v : V) (d : Dict V) → has_key k d ≡ true → set_default k v d ≡ d
  unfolding set_default has_key
  set_default-has_key k v d h = ground arith

  pub set_default_idem :
      (k : String) (v : V) (d : Dict V) → set_default k v (set_default k v d) ≡ set_default k v d
  set_default_idem k v d =
      set_default-has_key k v (set_default k v d) (rw (has_key-set_default k k v d, eq_refl k) refl)

  pub lookup_or-set_default :
      (k : String) (v : V) (d : Dict V)
      → has_key k d ≡ false
      → lookup_or v k (set_default k v d) ≡ v
  unfolding lookup_or set_default has_key
  lookup_or-set_default k v d h = ground (arith, lookup-insert k k v d, eq_iff k k)
