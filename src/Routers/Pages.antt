-- ===== src/Routers/Pages.antt =====
-- Pages (apps/api/src/voiceagent_api/routers/_helpers.py).
use real_voice_agent_free.Prelude.{
  ℕ, ℤ, pos, negsuc, not_below_zero, min, max, Option, none, some, List, [], length, leb, page,
  if◌then◌else◌,
}

abbrev pub max_limit : ℕ
max_limit = 100

-- `max(0, min(limit, max_limit))`
abbrev pub clamp : ℤ → ℕ
clamp (pos limit) = max 0 (min limit max_limit)
clamp (negsuc n) = 0

unfoldable pub apply_pagination : {A : Type 0} → List A → Option ℤ → ℤ → List A × ℕ
apply_pagination items limit offset =
    let total = length items in
    let from = not_below_zero offset in
    let count : ℕ = elim limit [ none ↦ total | some l ↦ clamp l ] in
    if leb total from then ([], total) else (page count from items, total)

unfoldable pub normalize_pagination : Option ℤ → ℤ → ℕ × ℕ
normalize_pagination limit offset =
    (elim limit [ none ↦ max_limit | some l ↦ clamp l ], not_below_zero offset)
