-- ===== src/Service/Ranks.antt =====
-- internal/service/service.go, SelectNextInvocation: the comparison of two invocations orders them.
use agent_comms.Base.{ℕ, ◌≡◌, ◌<◌, ◌≤◌, ◌⊎◌, inl, inr, true, false, arith}
use agent_comms.Model.State.{Invocation}
use agent_comms.Service.Select.{comes_first, priority_rank, is_better}

module _ (r t r' t' : ℕ) where
  not_first : comes_first r t r' t' ≡ false → (r < r') ⊎ ((r ≡ r') × (t' ≤ t))
  unfolding comes_first
  not_first h = ground arith

  not_first_lower : r < r' → comes_first r t r' t' ≡ false
  unfolding comes_first
  not_first_lower h = ground arith

  not_first_later : r ≡ r' → t' ≤ t → comes_first r t r' t' ≡ false
  unfolding comes_first
  not_first_later e h = ground arith

  comes_first_asym : comes_first r t r' t' ≡ true → comes_first r' t' r t ≡ false
  unfolding comes_first
  comes_first_asym h = ground arith

comes_first_trans :
    (r t r' t' s u : ℕ)
    → comes_first r t r' t' ≡ false
    → comes_first r' t' s u ≡ false
    → comes_first r t s u ≡ false
comes_first_trans r t r' t' s u h h' = elim (not_first r t r' t' h) [
  | inl lower ↦ elim (not_first r' t' s u h') [
    | inl lower' ↦ not_first_lower r t s u (omega arith)
    | inr (same, later) ↦ not_first_lower r t s u (omega arith)
  ]
  | inr (same, later) ↦ elim (not_first r' t' s u h') [
    | inl lower' ↦ not_first_lower r t s u (omega arith)
    | inr (same', later') ↦ not_first_later r t s u (omega arith) (omega arith)
  ]
]

pub is_better_trans :
    (i j k : Invocation) → is_better i j ≡ false → is_better j k ≡ false → is_better i k ≡ false
unfolding is_better
is_better_trans i j k h h' =
    comes_first_trans (priority_rank i.priority) i.clock.created_at (priority_rank j.priority)
      j.clock.created_at (priority_rank k.priority) k.clock.created_at h h'

pub is_better_irrefl : (i : Invocation) → is_better i i ≡ false
unfolding is_better
is_better_irrefl i =
    not_first_later (priority_rank i.priority) i.clock.created_at (priority_rank i.priority)
      i.clock.created_at (omega arith) (omega arith)

pub is_better_asym : (i j : Invocation) → is_better i j ≡ true → is_better j i ≡ false
unfolding is_better
is_better_asym i j h =
    comes_first_asym (priority_rank i.priority) i.clock.created_at (priority_rank j.priority)
      j.clock.created_at h
