-- ===== src/Pages/Selected.antt =====
-- The rows behind a cursor, where the numbers of the rows rise.
use agent_comms.Base.{
  ℕ, zero, suc, ◌<◌, ◌≤◌, ◌≡◌, refl, inl, inr, List, [], ◌∷◌, ltb, arith, take, drop, Bool-cases,
}
use agent_comms.Contracts.Types.{EventRecord}
use agent_comms.Pages.Events.{rows_after, last_sequence}

-- The numbers rise, from above `n` on.
abbrev pub Above : ℕ → List EventRecord → Type 0
Above n [] = Unit {0}
Above n (x ∷ xs) = (n < x.event.sequence) × Above x.event.sequence xs

Above-le : (m n : ℕ) (xs : List EventRecord) → m ≤ n → Above n xs → Above m xs
Above-le m n [] h up = tt
Above-le m n (x ∷ xs) h (here, up) = (omega arith, up)

Above-selected : (n a : ℕ) (xs : List EventRecord) → Above n xs → Above n (rows_after a xs)
unfolding rows_after
Above-selected n a [] up = tt
Above-selected n a (x ∷ xs) (here, up) = elim (Bool-cases (ltb a x.event.sequence)) [
  | inl kept ↦ rw (kept) (here, Above-selected x.event.sequence a xs up)
  | inr past ↦ rw (past) (
      Above-le n x.event.sequence (rows_after a xs) (omega arith)
        (Above-selected x.event.sequence a xs up))
]

pub rows_after-Above : (n a : ℕ) (xs : List EventRecord) → Above n xs → Above a (rows_after a xs)
unfolding rows_after
rows_after-Above n a [] up = tt
rows_after-Above n a (x ∷ xs) (here, up) = elim (Bool-cases (ltb a x.event.sequence)) [
  | inl kept ↦ rw (kept) (ground arith, Above-selected x.event.sequence a xs up)
  | inr past ↦ rw (past) (rows_after-Above x.event.sequence a xs up)
]

-- All rows that rise from a number on stand behind it.
pub rows_after_all : (a : ℕ) (xs : List EventRecord) → Above a xs → rows_after a xs ≡ xs
unfolding rows_after
rows_after_all a [] up = refl
rows_after_all a (x ∷ xs) (here, up) =
    let rest = rows_after_all a xs (Above-le a x.event.sequence xs (omega arith) up) in
    ground (arith, rest)

rows_after_twice :
    (a b : ℕ) (xs : List EventRecord) → a ≤ b → rows_after b (rows_after a xs) ≡ rows_after b xs
unfolding rows_after
rows_after_twice a b [] h = refl
rows_after_twice a b (x ∷ xs) h = ground (arith, rows_after_twice a b xs h)

last_sequence-Above :
    (n k : ℕ) (xs : List EventRecord) → Above n xs → n ≤ last_sequence n (take k xs)
unfolding last_sequence take
last_sequence-Above n zero xs up = omega arith
last_sequence-Above n (suc k) [] up = omega arith
last_sequence-Above n (suc k) (x ∷ xs) (here, up) =
    let later = last_sequence-Above x.event.sequence k xs up in omega arith

rows_after-last_sequence :
    (n k : ℕ) (xs : List EventRecord)
    → Above n xs
    → rows_after (last_sequence n (take k xs)) xs ≡ drop k xs
unfolding rows_after last_sequence take drop
rows_after-last_sequence n zero xs up = rows_after_all n xs up
rows_after-last_sequence n (suc k) [] up = refl
rows_after-last_sequence n (suc k) (x ∷ xs) (here, up) =
    let rest = rows_after-last_sequence x.event.sequence k xs up in
    let above = last_sequence-Above x.event.sequence k xs up in ground arith

-- Behind the last row of a page stand the rows that the page left out.
pub rows_after_page :
    (n a k : ℕ) (rows : List EventRecord)
    → Above n rows
    → rows_after (last_sequence a (take k (rows_after a rows))) rows ≡ drop k (rows_after a rows)
rows_after_page n a k rows up =
    let selected = rows_after-Above n a rows up in
    let above = last_sequence-Above a k (rows_after a rows) selected in
    rw (← rows_after_twice a (last_sequence a (take k (rows_after a rows))) rows above)
      (rows_after-last_sequence a k (rows_after a rows) selected)
