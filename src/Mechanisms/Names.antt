-- ===== src/Mechanisms/Names.antt =====
-- Searches in the names of algorithms.
use pkcs11hsmsim.Base.{
  ℕ, zero, suc, ◌+◌, Bool, true, false, ◌&&◌, ◌||◌, List, [], ◌∷◌, Bytes, ◌==◌, if◌then◌else◌,
}

unfoldable pub starts_with : Bytes → Bytes → Bool
starts_with [] text = true
starts_with (c ∷ cs) [] = false
starts_with (c ∷ cs) (d ∷ ds) = c == d && starts_with cs ds

-- `find(name) != npos`
unfoldable pub occurs_in : Bytes → Bytes → Bool
occurs_in name [] = starts_with name []
occurs_in name (d ∷ ds) = starts_with name (d ∷ ds) || occurs_in name ds

unfoldable pub nth_name : List Bytes → ℕ → Bytes
nth_name [] i = []
nth_name (x ∷ xs) zero = x
nth_name (x ∷ xs) (suc i) = nth_name xs i

-- The number of the first name that occurs in the text, counted from `i`; zero if none does.
unfoldable pub first_occurring : List Bytes → Bytes → ℕ → ℕ
first_occurring [] text i = 0
first_occurring (x ∷ xs) text i = if occurs_in x text then i else first_occurring xs text (i + 1)
