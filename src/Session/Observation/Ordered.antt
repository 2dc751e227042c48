-- ===== src/Session/Observation/Ordered.antt =====
-- The snapshots that the metrics are taken from: sound values, in order of their bars, one for a bar.
use project_fifty.Prelude.{◌≡◌, sym, inl, inr, subst, false, Bool-cases, ◌==◌, List, [], ◌∷◌, arith}
use project_fifty.Prelude.Dict.{values}
use project_fifty.Prelude.Sort.{
  All, insert_by, insert_by-All, sort_by, sort_by-All, IsRanked, sort_by-IsRanked,
}
use project_fifty.Outcome.{ok, >>=-eq-ok, ok_injective}
use project_fifty.Decimal.{lt, le, zero_dec}
use project_fifty.Ledger.Events.{Event, Snapshot}
use project_fifty.Session.Observation.{
  any_short, check_snapshot, put_snapshot, read_snapshots, earlier, observation_snapshots,
}

-- The values of a snapshot are those of a long-only account.
abbrev pub IsSound : Snapshot → Type 0
IsSound s =
    (lt s.nav zero_dec ≡ false)
    × (le s.spy_mark zero_dec ≡ false)
    × (any_short (values s.position_quantities) ≡ false)

check_snapshot-IsSound : (s x : Snapshot) → check_snapshot s ≡ ok x → IsSound x
unfolding check_snapshot
check_snapshot-IsSound s x h = ground arith

-- No two snapshots of a list are for one bar.
abbrev pub IsApart : Snapshot → Snapshot → Type 0
IsApart a b = ¬ (a.decision_bar_time ≡ b.decision_bar_time)

abbrev pub IsDistinct : List Snapshot → Type 0
IsDistinct [] = Unit {0}
IsDistinct (s ∷ ss) = All (IsApart s) ss × IsDistinct ss

put_snapshot-All :
    (P : Snapshot → Type 0) (s : Snapshot) (xs : List Snapshot)
    → P s
    → All P xs
    → All P (put_snapshot s xs)
unfolding put_snapshot
put_snapshot-All P s [] h k = (h, tt)
put_snapshot-All P s (x ∷ xs) h k = elim (Bool-cases (x.decision_bar_time == s.decision_bar_time)) [
  | inl same ↦ rw same (h, k.1)
  | inr other ↦ rw other (k.0, put_snapshot-All P s xs h k.1)
]

put_snapshot-IsDistinct :
    (s : Snapshot) (xs : List Snapshot) → IsDistinct xs → IsDistinct (put_snapshot s xs)
unfolding put_snapshot
put_snapshot-IsDistinct s [] k = (tt, tt)
put_snapshot-IsDistinct s (x ∷ xs) k =
    elim (Bool-cases (x.decision_bar_time == s.decision_bar_time)) [
      | inl same ↦
          rw same (subst (λ t. All (λ y. ¬ (t ≡ y.decision_bar_time)) xs) (ground arith) k.0, k.1)
      | inr other ↦
          rw other
            (put_snapshot-All (IsApart x) s xs (ground arith) k.0, put_snapshot-IsDistinct s xs k.1)
    ]

insert_by-IsDistinct :
    (s : Snapshot) (xs : List Snapshot)
    → All (IsApart s) xs
    → IsDistinct xs
    → IsDistinct (insert_by earlier s xs)
unfolding insert_by
insert_by-IsDistinct s [] h k = (tt, tt)
insert_by-IsDistinct s (x ∷ xs) h k = elim (Bool-cases (earlier s x)) [
  | inl first ↦ rw first (h, k)
  | inr later ↦ rw later (
    insert_by-All (IsApart x) earlier s xs (λ e. h.0 (sym e)) k.0,
    insert_by-IsDistinct s xs h.1 k.1,
  )
]

sort_by-IsDistinct : (xs : List Snapshot) → IsDistinct xs → IsDistinct (sort_by earlier xs)
unfolding sort_by
sort_by-IsDistinct [] k = tt
sort_by-IsDistinct (x ∷ xs) k =
    insert_by-IsDistinct x (sort_by earlier xs) (sort_by-All (IsApart x) earlier xs k.0)
      (sort_by-IsDistinct xs k.1)

read_snapshots-IsDistinct :
    (by_bar : List Snapshot) (events : List Event) (xs : List Snapshot)
    → All IsSound by_bar × IsDistinct by_bar
    → read_snapshots by_bar events ≡ ok xs
    → All IsSound xs × IsDistinct xs
unfolding read_snapshots
read_snapshots-IsDistinct by_bar [] xs k h =
    subst (λ x. All IsSound x × IsDistinct x) (ok_injective _ _ h) k
read_snapshots-IsDistinct by_bar (Event.forward_observation_snapshot s ∷ events) xs k h =
    let read = >>=-eq-ok (check_snapshot s) _ h in
    read_snapshots-IsDistinct (put_snapshot read.0 by_bar) events xs
      (
        put_snapshot-All IsSound read.0 by_bar (check_snapshot-IsSound s read.0 read.1) k.0,
        put_snapshot-IsDistinct read.0 by_bar k.1,
      )
      read.2
read_snapshots-IsDistinct by_bar (_ ∷ events) xs k h =
    read_snapshots-IsDistinct by_bar events xs k h

-- The snapshots that the metrics are taken from are in the order of their bars, no two of them for
-- one bar, with a net value that is not negative, a benchmark price that is positive and no short
-- position.
pub observation_snapshots-IsDistinct :
    (events : List Event) (xs : List Snapshot)
    → observation_snapshots events ≡ ok xs
    → IsRanked (λ (s : Snapshot). s.decision_bar_time) xs × All IsSound xs × IsDistinct xs
unfolding observation_snapshots
observation_snapshots-IsDistinct events xs h =
    let read = >>=-eq-ok (read_snapshots [] events) _ h in
    let kept = read_snapshots-IsDistinct [] events read.0 (tt, tt) read.1 in
    subst
      (λ ys. IsRanked (λ (s : Snapshot). s.decision_bar_time) ys × All IsSound ys × IsDistinct ys)
      (ok_injective _ _ read.2)
      (
        sort_by-IsRanked (λ s. s.decision_bar_time) earlier (λ x y e. ground arith)
            (λ x y e. ground arith) read.0,
        sort_by-All IsSound earlier read.0 kept.0,
        sort_by-IsDistinct read.0 kept.1,
      )
