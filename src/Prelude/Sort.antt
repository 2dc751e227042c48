-- ===== src/Prelude/Sort.antt =====
-- Python's `sorted`, which is stable, for an order given as a test, and the order of strings.
use Prim.Native.String.{compare}
use text.Mathlib.Text.{is_le}
use project_fifty.Prelude.{
  ℕ, ◌≤◌, ◌≡◌, String, Bool, true, false, Bool-cases, inl, inr, List, [], ◌∷◌, arith, if◌then◌else◌,
  add_key,
}

-- Strings are ordered by their code points.
abbrev pub str_le : String → String → Bool
str_le a b = is_le (compare a b)

module _ {ℓ} {A : Type ℓ} (le : A → A → Bool) where
  unfoldable pub insert_by : A → List A → List A
  insert_by x [] = x ∷ []
  insert_by x (y ∷ ys) = let rest = insert_by x ys in if le x y then x ∷ y ∷ ys else y ∷ rest

  unfoldable pub sort_by : List A → List A
  unfolding insert_by
  sort_by [] = []
  sort_by (x ∷ xs) = insert_by x (sort_by xs)

-- `sorted(set(a) | set(b))`, for the keys of two dicts
unfoldable pub merge_keys : List String → List String → List String
unfolding add_key
merge_keys [] keys = keys
merge_keys (k ∷ ks) keys = merge_keys ks (add_key k keys)

unfoldable pub sorted_keys : List String → List String → List String
unfolding merge_keys sort_by
sorted_keys a b = sort_by str_le (merge_keys a (merge_keys b []))

-- Every member satisfies `P`.
abbrev pub All {ℓ κ} : {A : Type ℓ} → (A → Type κ) → List A → Type κ
All P [] = Unit
All P (x ∷ xs) = P x × All P xs

pub All-weaken {ℓ κ μ} :
    {A : Type ℓ} {P : A → Type κ} {Q : A → Type μ} (xs : List A)
    → ((x : A) → P x → Q x)
    → All P xs
    → All Q xs
All-weaken [] f h = tt
All-weaken (x ∷ xs) f h = (f x h.0, All-weaken xs f h.1)

pub All-both {ℓ κ μ} :
    {A : Type ℓ} (P : A → Type κ) (Q : A → Type μ) (xs : List A)
    → All P xs
    → All Q xs
    → All (λ x. P x × Q x) xs
All-both P Q [] h k = tt
All-both P Q (x ∷ xs) h k = ((h.0, k.0), All-both P Q xs h.1 k.1)

-- Each member has the relation to whatever all members have it to.
pub All-each {ℓ κ} :
    {A : Type ℓ} (R : A → A → Type κ) (xs : List A)
    → All (λ x. (y : A) → All (λ z. R z y) xs → R x y) xs
All-each R [] = tt
All-each R (x ∷ xs) = ((λ y h. h.0), All-weaken xs (λ z f y h. f y h.1) (All-each R xs))

module _ {ℓ κ} {A : Type ℓ} (P : A → Type κ) (le : A → A → Bool) where
  pub insert_by-All : (x : A) (xs : List A) → P x → All P xs → All P (insert_by le x xs)
  unfolding insert_by
  insert_by-All x [] h k = (h, tt)
  insert_by-All x (y ∷ ys) h k = elim (Bool-cases (le x y)) [
    | inl first ↦ rw first (h, k)
    | inr later ↦ rw later (k.0, insert_by-All x ys h k.1)
  ]

  pub sort_by-All : (xs : List A) → All P xs → All P (sort_by le xs)
  unfolding sort_by
  sort_by-All [] k = tt
  sort_by-All (x ∷ xs) k = insert_by-All x (sort_by le xs) k.0 (sort_by-All xs k.1)

-- A sort by a test that respects a rank puts lower ranks first.
module _ {ℓ} {A : Type ℓ} (rank : A → ℕ) where
  -- Every member has a rank that no later member is below.
  abbrev pub IsRanked : List A → Type 0
  IsRanked [] = Unit {0}
  IsRanked (x ∷ xs) = All (λ y. rank x ≤ rank y) xs × IsRanked xs

  All-lower : (m n : ℕ) (xs : List A) → m ≤ n → All (λ y. n ≤ rank y) xs → All (λ y. m ≤ rank y) xs
  All-lower m n [] h k = tt
  All-lower m n (x ∷ xs) h k = (omega (arith, k.0), All-lower m n xs h k.1)

  module _ (le : A → A → Bool) (low : (x y : A) → le x y ≡ true → rank x ≤ rank y)
      (high : (x y : A) → le x y ≡ false → rank y ≤ rank x) where
    insert_by-IsRanked : (x : A) (xs : List A) → IsRanked xs → IsRanked (insert_by le x xs)
    unfolding insert_by
    insert_by-IsRanked x [] k = (tt, tt)
    insert_by-IsRanked x (y ∷ ys) k = elim (Bool-cases (le x y)) [
      | inl first ↦
          rw first ((low x y first, All-lower (rank x) (rank y) ys (low x y first) k.0), k)
      | inr later ↦ rw later (
        insert_by-All (λ z. rank y ≤ rank z) le x ys (high x y later) k.0,
        insert_by-IsRanked x ys k.1,
      )
    ]

    pub sort_by-IsRanked : (xs : List A) → IsRanked (sort_by le xs)
    unfolding sort_by
    sort_by-IsRanked [] = tt
    sort_by-IsRanked (x ∷ xs) = insert_by-IsRanked x (sort_by le xs) (sort_by-IsRanked xs)
