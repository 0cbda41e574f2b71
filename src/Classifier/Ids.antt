-- ===== src/Classifier/Ids.antt =====
-- The ids of rules (include/classifier.hh, get_id).
use nox13_interserver.Common.{
  ℕ, zero, suc, ◌+◌, ◌^◌, Bool, true, false, Option, none, some, List, [], ◌∷◌, ◌==◌, if◌then◌else◌,
}

-- rules.find(id) != rules.end()
abbrev pub is_used : {R : Type 0} → ℕ → List (ℕ × R) → Bool
is_used id [] = false
is_used id ((j, r) ∷ m) = if j == id then true else is_used id m

abbrev pub max_id : ℕ
max_id = 4294967295

module _ {R : Type 0} where
  -- The loop of get_id, on fuel: the id_counter that it ends with, or none where it throws.
  unfoldable pub next_unused : ℕ → Bool → List (ℕ × R) → ℕ → Option ℕ
  next_unused zero loop rules id_counter = none
  next_unused (suc fuel) loop rules id_counter = elim (is_used id_counter rules) [
    | false ↦ some id_counter
    | true ↦ elim (id_counter == max_id) [
      | false ↦ next_unused fuel loop rules (id_counter + 1)
      | true ↦ elim loop [ true ↦ none | false ↦ next_unused fuel true rules 1 ]
    ]
  ]

-- Before the second time that the loop is at the greatest id, it has made less than 2^33 rounds.
unfoldable pub id_rounds : ℕ
id_rounds = 2 ^ 33

-- The id and the id_counter after.
unfoldable pub get_id : {R : Type 0} → List (ℕ × R) → ℕ → Option (ℕ × ℕ)
unfolding next_unused
get_id rules id_counter = elim (next_unused id_rounds false rules id_counter) [
  | none ↦ none
  | some id ↦ some (id, if id == max_id then 1 else id)
]
