-- ===== src/Docker/Render/Password.antt =====
-- What a root password is made of.
use Prim.Native.String.{String}
use Prim.Native.Char.{Char, code}
use sansbox_sql.Base.{ℕ, Bool, true, not, ◌&&◌, List, length, All, ◌==◌, nat_eq, ◌≡◌}
use sansbox_sql.Base.Text.{codes}
use sansbox_sql.Models.{is_word}
use sansbox_sql.Errors.{ok}
use sansbox_sql.Exec.Returns.{Returns}
use sansbox_sql.Docker.Render.{Renderer}

-- `secrets.choice` gives one of the entries.
pub record Chooses {W : Type 0} (r : Renderer W) : Type 1 where
  pub picks :
      (P : Char → Type 0) (cs : List Char) (w : W) (c : Char) (w' : W)
      → All P cs
      → r.choice cs w ≡ (ok c, w')
      → P c

-- A letter or a digit
pub Alphanumeric : ℕ → Type 0
Alphanumeric c = (is_word c && not (c == b'_')) ≡ true

every : String → Bool
every String.[] = true
every (String.◌∷◌ c s) = (is_word (code c) && not (code c == b'_')) && every s

module _ {W : Type 0} (r : Renderer W) (chooses : Chooses r) where
  Drawn : ℕ → String → W → Type 0
  Drawn n s w = (length (codes s) ≡ n) × All Alphanumeric (codes s)
