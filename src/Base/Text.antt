-- ===== src/Base/Text.antt =====
-- Texts as the code points that Python's `in`, `lower` and `re` walk through.
use Prim.Native.Nat.{ℕ, ◌+◌}
use Prim.Native.Char.{code}
use Prim.Native.String.{String}
use mathlib.Core.Path.{◌≡◌, refl}
use mathlib.Core.Bool.{Bool, true, false, ◌&&◌, ◌||◌}
use mathlib.Core.List.{List, [], ◌∷◌, ◌++◌}
use native.Mathlib.Omega.{arith}
use sansbox_sql.Base.Tests.{leb, nat_beq, if◌then◌else◌}

abbrev pub codes : String → List ℕ
codes String.[] = []
codes (String.◌∷◌ c s) = code c ∷ codes s

-- `text.startswith(word)`
unfoldable pub is_prefix : List ℕ → List ℕ → Bool
is_prefix [] text = true
is_prefix (w ∷ word) [] = false
is_prefix (w ∷ word) (c ∷ text) = nat_beq w c && is_prefix word text

-- `word in text`
unfoldable pub occurs : List ℕ → List ℕ → Bool
unfolding is_prefix
occurs word [] = is_prefix word []
occurs word (c ∷ text) = is_prefix word (c ∷ text) || occurs word text

-- ASCII letters in lower case; no other character becomes one of the letters that the program
-- looks for.
unfoldable pub lower : ℕ → ℕ
lower c = if leb b'A' c && leb c b'Z' then c + 32 else c

pub is_prefix-append : (word rest : List ℕ) → is_prefix word (word ++ rest) ≡ true
unfolding is_prefix
is_prefix-append [] rest = refl
is_prefix-append (w ∷ word) rest = ground (arith, is_prefix-append word rest)

pub occurs-append : (before word rest : List ℕ) → occurs word (before ++ (word ++ rest)) ≡ true
unfolding occurs
occurs-append [] [] [] = refl
occurs-append [] [] (c ∷ rest) = refl
occurs-append [] (w ∷ word) rest = ground (arith, is_prefix-append (w ∷ word) rest)
occurs-append (c ∷ before) word rest = ground (arith, occurs-append before word rest)
