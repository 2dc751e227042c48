-- ===== src/Prelude/Seq.antt =====
-- Python's `len`, and reading a sequence from its end.
use project_fifty.Prelude.Sort.{All, insert_by, sort_by}
use project_fifty.Prelude.{
  ap, ◌≡◌, ◌≤◌, ◌+◌, ◌++◌, refl, Bool, arith, ℕ, suc, leb, ◌==◌, Option, none, some, List, [], ◌∷◌,
  if◌then◌else◌,
}

module _ {ℓ} {A : Type ℓ} where
  -- `len(xs)`
  unfoldable pub length : List A → ℕ
  length [] = 0
  length (x ∷ xs) = suc (length xs)

  -- `xs[-n:]` for a positive n
  unfoldable pub last_n : ℕ → List A → List A
  unfolding length
  last_n n [] = []
  last_n n (x ∷ xs) = let rest = last_n n xs in if leb (length (x ∷ xs)) n then x ∷ xs else rest

  -- `xs[-n]` for a positive n; none is Python's IndexError.
  unfoldable pub from_end : ℕ → List A → Option A
  unfolding length
  from_end n [] = none
  from_end n (x ∷ xs) = let rest = from_end n xs in if length (x ∷ xs) == n then some x else rest

  -- `xs[:n]`
  unfoldable pub take : ℕ → List A → List A
  take ℕ.zero xs = []
  take (suc n) [] = []
  take (suc n) (x ∷ xs) = x ∷ take n xs

  -- `xs[n:]`
  unfoldable pub drop : ℕ → List A → List A
  drop ℕ.zero xs = xs
  drop (suc n) [] = []
  drop (suc n) (x ∷ xs) = drop n xs

  pub length-take : (n : ℕ) (xs : List A) → length (take n xs) ≤ n
  unfolding length take
  length-take ℕ.zero xs = omega arith
  length-take (suc n) [] = omega arith
  length-take (suc n) (x ∷ xs) = omega (arith, length-take n xs)

  pub take-All {κ} : (P : A → Type κ) (n : ℕ) (xs : List A) → All P xs → All P (take n xs)
  unfolding take
  take-All P ℕ.zero xs h = tt
  take-All P (suc n) [] h = tt
  take-All P (suc n) (x ∷ xs) h = (h.0, take-All P n xs h.1)

  pub length-append : (xs ys : List A) → length (xs ++ ys) ≡ length xs + length ys
  unfolding length
  length-append [] ys = omega arith
  length-append (x ∷ xs) ys = omega (arith, length-append xs ys)

  pub append-All {κ} : (P : A → Type κ) (xs ys : List A) → All P xs → All P ys → All P (xs ++ ys)
  append-All P [] ys h k = k
  append-All P (x ∷ xs) ys h k = (h.0, append-All P xs ys h.1 k)

  pub length-insert_by :
      (le : A → A → Bool) (x : A) (xs : List A) → length (insert_by le x xs) ≡ suc (length xs)
  unfolding length insert_by
  length-insert_by le x [] = refl
  length-insert_by le x (y ∷ ys) = ground (arith, length-insert_by le x ys)

  pub length-sort_by : (le : A → A → Bool) (xs : List A) → length (sort_by le xs) ≡ length xs
  unfolding length sort_by
  length-sort_by le [] = refl
  length-sort_by le (x ∷ xs) =
      omega (arith, length-insert_by le x (sort_by le xs), length-sort_by le xs)

  pub take_all : (xs : List A) → take (length xs) xs ≡ xs
  unfolding length take
  take_all [] = refl
  take_all (x ∷ xs) = ap (λ ys. x ∷ ys) (take_all xs)
