-- ===== src/Models/Names.antt =====
-- What `_validate_name` accepts.
use sansbox_sql.Base.{
  String, ℕ, ◌≤◌, true, false, List, [], ◌∷◌, ◌++◌, ◌≡◌, ◌⊎◌, ◌↔◌, inl, inr, refl, ap, arith, All,
  length, nat_eq, ◌==◌, Bool-cases, eq_iff, string_eq,
}
use sansbox_sql.Base.Text.{codes}
use sansbox_sql.Errors.{ok}
use sansbox_sql.Models.{is_word, matches_rest, name_re, validate_name, max_name_len}

abbrev pub Word : List ℕ → Type 0
Word = All (λ c. is_word c ≡ true)

-- A text of word characters, or one with a newline behind it.
abbrev pub WordLine : List ℕ → Type 0
WordLine cs = (w : List ℕ) × Word w × ((cs ≡ w) ⊎ (cs ≡ w ++ (10 ∷ [])))

extend_line : (c : ℕ) (cs : List ℕ) → is_word c ≡ true → WordLine cs → WordLine (c ∷ cs)
extend_line c cs h (w, ww, inl e) = (c ∷ w, (h, ww), inl (ap (◌∷◌ c) e))
extend_line c cs h (w, ww, inr e) = (c ∷ w, (h, ww), inr (ap (◌∷◌ c) e))

matches_rest-WordLine : (cs : List ℕ) → matches_rest cs ≡ true → WordLine cs
unfolding matches_rest
matches_rest-WordLine [] h = ([], tt, inl refl)
matches_rest-WordLine (c ∷ []) h = elim (Bool-cases (is_word c)) [
  | inl y ↦ (c ∷ [], (y, tt), inl refl)
  | inr n ↦ ([], tt, inr (ground arith))
]
matches_rest-WordLine (c ∷ d ∷ cs) h =
    extend_line c (d ∷ cs) (ground arith) (matches_rest-WordLine (d ∷ cs) (ground arith))

matches_rest-Word : (w : List ℕ) → Word w → matches_rest w ≡ true
unfolding matches_rest
matches_rest-Word [] h = refl
matches_rest-Word (c ∷ []) h = ground arith
matches_rest-Word (c ∷ d ∷ cs) h = ground (arith, matches_rest-Word (d ∷ cs) h.1)

matches_rest-newline : (w : List ℕ) → Word w → matches_rest (w ++ (10 ∷ [])) ≡ true
unfolding matches_rest is_word
matches_rest-newline [] h = refl
matches_rest-newline (c ∷ []) h = ground arith
matches_rest-newline (c ∷ d ∷ cs) h = ground (arith, matches_rest-newline (d ∷ cs) h.1)

WordLine-matches_rest : (cs : List ℕ) → WordLine cs → matches_rest cs ≡ true
WordLine-matches_rest cs (w, ww, inl e) = rw e (matches_rest-Word w ww)
WordLine-matches_rest cs (w, ww, inr e) = rw e (matches_rest-newline w ww)

-- `_NAME_RE` matches exactly the non-empty texts of letters, digits and underscores, and such a
-- text with one newline behind it.
pub name_re_iff :
    (c : ℕ) (cs : List ℕ) → (name_re (c ∷ cs) ≡ true) ↔ ((is_word c ≡ true) × WordLine cs)
unfolding name_re
name_re_iff c cs = (
  λ h. (ground arith, matches_rest-WordLine cs (ground arith)),
  λ (h, line). ground (arith, WordLine-matches_rest cs line),
)

abbrev pub NameText : List ℕ → Type 0
NameText cs = (c : ℕ) × (rest : List ℕ) × (cs ≡ c ∷ rest) × (is_word c ≡ true) × WordLine rest

name_re-NameText : (cs : List ℕ) → name_re cs ≡ true → NameText cs
unfolding name_re
name_re-NameText [] h = cc
name_re-NameText (c ∷ cs) h =
    let (first, line) = (name_re_iff c cs).0 h in (c, cs, refl, first, line)

NameText-name_re : (cs : List ℕ) → NameText cs → name_re cs ≡ true
NameText-name_re cs (c, rest, e, first, line) = rw e ((name_re_iff c rest).1 (first, line))

nonempty_of_codes : (v : String) → NameText (codes v) → (v == "") ≡ false
nonempty_of_codes v (c, rest, e, _, _) = elim (Bool-cases (v == "")) [
  | inl y ↦ absurd (cc (ap codes ((eq_iff v "").0 y), e))
  | inr n ↦ n
]

-- `_validate_name` returns a name unchanged exactly when it is a word of letters, digits and
-- underscores, with or without one newline behind it, of at most 64 characters in all.
pub validate_name_iff :
    (value kind : String)
    → (validate_name value kind ≡ ok value)
      ↔ (NameText (codes value) × (length (codes value) ≤ max_name_len))
unfolding validate_name
validate_name_iff value kind = (
  λ h. (name_re-NameText (codes value) (ground arith), ground arith),
  λ (text, short).
      ground (arith, nonempty_of_codes value text, NameText-name_re (codes value) text),
)

pub validate_name-same : (value kind w : String) → validate_name value kind ≡ ok w → w ≡ value
unfolding validate_name
validate_name-same value kind w h = ground arith
