-- ===== src/Strategies/Persistent/Few.antt =====
-- The selections of the persistent strategy: what they hold, and how many.
use project_fifty.Prelude.{
  ℕ, suc, ◌≤◌, String, ◌≡◌, refl, ap, inl, inr, true, Bool-cases, str_eq, eq_iff, contains, ltb,
  arith, List, [], ◌∷◌, ◌++◌,
}
use project_fifty.Prelude.Sort.{All, All-weaken}
use project_fifty.Prelude.Seq.{length, length-append, append-All, length-sort_by}
use project_fifty.Decimal.{Decimal, lt, add}
use project_fifty.Strategies.Baseline.Signals.{SignalBreakdown}
use project_fifty.Strategies.Baseline.Target.{rank_signals}
use project_fifty.Strategies.Baseline.Target.Selected.{rank_signals-All}
use project_fifty.Strategies.Persistent.{
  symbols_of, is_weaker, weakest, remove_signal, fill_slots, challenge, challenge_all,
}

-- All of these, and at most so many
abbrev pub AreFew : (SignalBreakdown → Type 0) → ℕ → List SignalBreakdown → Type 0
AreFew P n items = All P items × (length items ≤ n)

pub weakest-holds :
    (P : SignalBreakdown → Type 0) (item : SignalBreakdown) (items : List SignalBreakdown)
    → P item
    → All P items
    → P (weakest item items)
unfolding weakest
weakest-holds P item [] h k = h
weakest-holds P item (other ∷ items) h k = elim (Bool-cases (is_weaker other item)) [
  | inl weaker ↦ rw weaker (weakest-holds P other items k.0 k.1)
  | inr apart ↦ rw apart (weakest-holds P item items h k.1)
]

pub All-symbols :
    (items : List SignalBreakdown)
    → All (λ item. contains item.symbol (symbols_of items) ≡ true) items
unfolding contains
All-symbols [] = tt
All-symbols (item ∷ items) = (
  ground (arith, eq_iff item.symbol item.symbol),
  All-weaken items (λ other h. rw h (ground arith)) (All-symbols items),
)

pub remove_signal-All :
    (P : SignalBreakdown → Type 0) (symbol : String) (items : List SignalBreakdown)
    → All P items
    → All P (remove_signal symbol items)
unfolding remove_signal
remove_signal-All P symbol [] h = tt
remove_signal-All P symbol (item ∷ items) h = elim (Bool-cases (str_eq item.symbol symbol)) [
  | inl same ↦ rw same h.1
  | inr other ↦ rw other (h.0, remove_signal-All P symbol items h.1)
]

length-remove_signal :
    (symbol : String) (items : List SignalBreakdown)
    → contains symbol (symbols_of items) ≡ true
    → suc (length (remove_signal symbol items)) ≡ length items
unfolding remove_signal length contains
length-remove_signal symbol [] h = cc
length-remove_signal symbol (item ∷ items) h = elim (Bool-cases (str_eq item.symbol symbol)) [
  | inl same ↦ rw same refl
  | inr other ↦ rw other (ap suc (length-remove_signal symbol items (rw other at h)))
]

pub fill_slots-AreFew :
    (P : SignalBreakdown → Type 0) (slots : ℕ) (selected challengers : List SignalBreakdown)
    → AreFew P slots selected
    → All P challengers
    → let (chosen, left) = fill_slots slots selected challengers in
      AreFew P slots chosen × All P left
unfolding fill_slots
fill_slots-AreFew P slots selected [] h k = (h, tt)
fill_slots-AreFew P slots selected (candidate ∷ challengers) h k =
    elim (Bool-cases (ltb (length selected) slots)) [
      | inl free ↦ rw free (
          fill_slots-AreFew P slots (selected ++ candidate ∷ []) challengers
            (
              append-All P selected (candidate ∷ []) h.0 (k.0, tt),
              (unfold length in ground (arith, length-append selected (candidate ∷ []))),
            )
            k.1)
      | inr full ↦ rw full (h, k)
    ]

pub replace_weakest-AreFew :
    (P : SignalBreakdown → Type 0) (n : ℕ) (candidate item : SignalBreakdown)
    (items : List SignalBreakdown)
    → AreFew P n (item ∷ items)
    → P candidate
    → AreFew P n (remove_signal (weakest item items).symbol (item ∷ items) ++ candidate ∷ [])
replace_weakest-AreFew P n candidate item items h k =
    let weak = weakest item items in
    let all = All-symbols (item ∷ items) in
    let there =
      weakest-holds (λ x. contains x.symbol (symbols_of (item ∷ items)) ≡ true) item items all.0
        all.1 in
    let removed = remove_signal weak.symbol (item ∷ items) in
    let shorter = length-remove_signal weak.symbol (item ∷ items) there in
    (
      append-All P removed (candidate ∷ []) (remove_signal-All P weak.symbol (item ∷ items) h.0)
          (k, tt),
      (unfold length in omega (arith, length-append removed (candidate ∷ []), shorter, h.1)),
    )

pub challenge-AreFew :
    (P : SignalBreakdown → Type 0) (n : ℕ) (margin : Decimal) (candidate : SignalBreakdown)
    (selected : List SignalBreakdown)
    → AreFew P n selected
    → P candidate
    → AreFew P n (challenge margin candidate selected)
unfolding challenge
challenge-AreFew P n margin candidate [] h k = h
challenge-AreFew P n margin candidate (item ∷ items) h k =
    elim (Bool-cases (lt candidate.score (add (weakest item items).score margin))) [
      | inl below ↦ rw below h
      | inr edge ↦ rw edge (replace_weakest-AreFew P n candidate item items h k)
    ]

pub challenge_all-AreFew :
    (P : SignalBreakdown → Type 0) (n : ℕ) (margin : Decimal)
    (selected challengers : List SignalBreakdown)
    → AreFew P n selected
    → All P challengers
    → AreFew P n (challenge_all margin selected challengers)
unfolding challenge_all
challenge_all-AreFew P n margin selected [] h k = h
challenge_all-AreFew P n margin selected (candidate ∷ challengers) h k =
    challenge_all-AreFew P n margin (challenge margin candidate selected) challengers
      (challenge-AreFew P n margin candidate selected h k.0) k.1

pub rank_signals-AreFew :
    (P : SignalBreakdown → Type 0) (n : ℕ) (items : List SignalBreakdown)
    → AreFew P n items
    → AreFew P n (rank_signals items)
unfolding rank_signals
rank_signals-AreFew P n items h =
    (unfold rank_signals in rank_signals-All P items h.0, rw (length-sort_by _ items) h.1)
