-- ===== src/Text/Trim.antt =====
-- Go's `strings.TrimSpace`.
use vwarp.Prelude.{ℕ, Bool, ◌||◌, ◌&&◌, List, [], ◌∷◌, ◌==◌, leb, if◌then◌else◌}

-- `strings.TrimSpace` on ASCII text.
unfoldable pub is_space : ℕ → Bool
is_space c = (leb 9 c && leb c 13) || (c == 32)

unfoldable pub trim_front : List ℕ → List ℕ
trim_front [] = []
trim_front (c ∷ s) = if is_space c then trim_front s else c ∷ s

unfoldable pub trim_back : List ℕ → List ℕ
trim_back [] = []
trim_back (c ∷ s) = elim (trim_back s) [
  | [] ↦ if is_space c then [] else c ∷ []
  | d ∷ r ↦ c ∷ d ∷ r
]
