-- ===== src/Tests/FreshTests.antt =====
-- The third agent of a provider; numbers are written as that many marks.
use agent_comms.Base.{
  ℕ, zero, suc, ◌<◌, ◌≡◌, refl, ap, inl, inr, arith, String, false, [], ◌∷◌, some, ◌==◌, eq_iff,
  Bool-cases,
}
use agent_comms.Base.Text.{has}
use agent_comms.Model.ActorIds.{default_agent_actor_id, suggested_actor_id}
use agent_comms.Agents.Fresh.{default_agent_actor_id_free}

marks : ℕ → String
marks zero = ""
marks (suc n) = String.◌∷◌ "I" (marks n)

count : String → ℕ
count String.[] = 0
count (String.◌∷◌ c s) = suc (count s)

count-marks : (n : ℕ) → count (marks n) ≡ n
unfolding count marks
count-marks zero = refl
count-marks (suc n) = ap suc (count-marks n)

marks_differ : (i j : ℕ) → i < j → (marks i == marks j) ≡ false
marks_differ i j h = elim (Bool-cases (marks i == marks j)) [
  | inl e ↦
      absurd
        (omega (arith, count-marks i, count-marks j, ap count ((eq_iff (marks i) (marks j)).0 e)))
  | inr e ↦ e
]

third : default_agent_actor_id marks ("claude" ∷ "claude-II" ∷ []) 3 " Claude " ≡ some "claude-III"
unfolding default_agent_actor_id marks
third = refl

repaired : suggested_actor_id ("claude" ∷ "codex" ∷ []) " reviewer" ≡ some "claude-reviewer"
unfolding suggested_actor_id
repaired = refl

default_agent_actor_id_free_example :
    (id : String) × (default_agent_actor_id marks ("claude" ∷ "claude-II" ∷ []) 3 " Claude "
      ≡ some id)
    × (has ("claude" ∷ "claude-II" ∷ []) id ≡ false)
default_agent_actor_id_free_example =
    default_agent_actor_id_free marks ("claude" ∷ "claude-II" ∷ []) " Claude " marks_differ
