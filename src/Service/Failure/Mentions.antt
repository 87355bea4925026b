-- ===== src/Service/Failure/Mentions.antt =====
-- What a text mentions, a longer text mentions too.
use Prim.Native.Char.{code}
use Prim.Native.String.{String}
use Prim.Native.String.append
use mathlib.Core.List.{map-append}
use sansbox_sql.Base.{ℕ, ◌<>◌, true, List, [], ◌∷◌, ◌++◌, map, ◌≡◌, refl, ap, ◌∙◌, arith}
use sansbox_sql.Base.Text.{codes, lower, occurs, is_prefix}
use sansbox_sql.Service.Failure.{mentions}

pub codes-append : (s t : String) → codes (s <> t) ≡ codes s ++ codes t
codes-append String.[] t = ap codes (append.nil t)
codes-append (String.◌∷◌ c s) t =
    ap codes (append.cons c s t) ∙ ap (◌∷◌ (code c)) (codes-append s t)

pub lower-append :
    (s t : String) → map lower (codes (s <> t)) ≡ map lower (codes s) ++ map lower (codes t)
lower-append s t = ap (map lower) (codes-append s t) ∙ map-append lower (codes s) (codes t)

occurs-right : (word a b : List ℕ) → occurs word b ≡ true → occurs word (a ++ b) ≡ true
unfolding occurs
occurs-right word [] b h = h
occurs-right word (c ∷ a) b h = ground (arith, occurs-right word a b h)

pub mentions-right : (word s t : String) → mentions word t ≡ true → mentions word (s <> t) ≡ true
unfolding mentions
mentions-right word s t h =
    ap (occurs (codes word)) (lower-append s t)
    ∙ occurs-right (codes word) (map lower (codes s)) (map lower (codes t)) h

prefix-left : (word a b : List ℕ) → is_prefix word a ≡ true → is_prefix word (a ++ b) ≡ true
unfolding is_prefix
prefix-left [] a b h = refl
prefix-left (w ∷ word) [] b h = ground arith
prefix-left (w ∷ word) (c ∷ a) b h = ground (arith, prefix-left word a b)

occurs-left : (word a b : List ℕ) → occurs word a ≡ true → occurs word (a ++ b) ≡ true
unfolding occurs is_prefix
occurs-left [] [] [] h = refl
occurs-left [] [] (c ∷ b) h = refl
occurs-left (w ∷ word) [] b h = ground arith
occurs-left word (c ∷ a) b h = ground (arith, prefix-left word (c ∷ a) b, occurs-left word a b)

pub mentions-left : (word s t : String) → mentions word s ≡ true → mentions word (s <> t) ≡ true
unfolding mentions
mentions-left word s t h =
    ap (occurs (codes word)) (lower-append s t)
    ∙ occurs-left (codes word) (map lower (codes s)) (map lower (codes t)) h
