-- ===== src/Docker/Render/Accounts.antt =====
-- The accounts that a create draws, in the rendered grants.
use Prim.Native.String.{String}
use sansbox_sql.Base.{
  ◌<>◌, ℕ, ◌*◌, suc, false, List, [], ◌∷◌, length, All, ◌==◌, nat_eq, nat_beq_iff, Bool-cases, ◌≡◌,
  refl, ap, sym, arith, inl, inr,
}
use sansbox_sql.Base.Text.{codes}
use sansbox_sql.Errors.{ok}
use sansbox_sql.Exec.Returns.{Returns, Returns-after, returned}
use sansbox_sql.Models.{is_word, validate_name, DbSpec}
use sansbox_sql.Models.Names.{Word, WordLine, NameText, validate_name_iff}
use sansbox_sql.Service.{World}
use sansbox_sql.Service.Calls.{CreateCallables}
use sansbox_sql.Service.Steps.{Accounts, draw_accounts}
use sansbox_sql.Docker.Render.{render_grant_sql}
use sansbox_sql.Docker.Render.Grants.{
  count, count-append, count_text, Plain, GrantPlain, render_grant_sql-Quoted,
}

count-Word : (q : ℕ) (w : List ℕ) → is_word q ≡ false → Word w → count q w ≡ 0
unfolding count
count-Word q [] n h = refl
count-Word q (x ∷ w) n (hx, hw) = elim (Bool-cases (x == q)) [
  | inl y ↦ absurd (cc (ap is_word ((nat_beq_iff x q).0 y), hx, n))
  | inr o ↦ ground (arith, count-Word q w n hw)
]

count-WordLine :
    (q : ℕ) (cs : List ℕ) → is_word q ≡ false → (10 == q) ≡ false → WordLine cs → count q cs ≡ 0
unfolding count
count-WordLine q cs n m (w, ww, inl e) = rw e (count-Word q w n ww)
count-WordLine q cs n m (w, ww, inr e) =
    rw e (ground (arith, count-append q w (10 ∷ []), count-Word q w n ww))

count-NameText :
    (q : ℕ) (cs : List ℕ) → is_word q ≡ false → (10 == q) ≡ false → NameText cs → count q cs ≡ 0
unfolding count
count-NameText q cs n m (c, rest, e, hc, line) = elim (Bool-cases (c == q)) [
  | inl y ↦ absurd (cc (ap is_word ((nat_beq_iff c q).0 y), hc, n))
  | inr o ↦ rw e (ground (arith, count-WordLine q rest n m line))
]

name-Plain : (value kind : String) → validate_name value kind ≡ ok value → Plain value
unfolding Plain is_word
name-Plain value kind h = (
  count-NameText 39 (codes value) refl refl ((validate_name_iff value kind).0 h).0,
  count-NameText 96 (codes value) refl refl ((validate_name_iff value kind).0 h).0,
)

user-Plain : (name hex : String) → Plain name → Plain hex → Plain ("u_" <> (name <> ("_" <> hex)))
unfolding Plain count
user-Plain name hex (n, n') (h, h') = (
  omega (
    arith,
    count_text 39 "u_" (name <> ("_" <> hex)),
    count_text 39 name ("_" <> hex),
    count_text 39 "_" hex,
    n,
    h,
  ),
  omega (
    arith,
    count_text 96 "u_" (name <> ("_" <> hex)),
    count_text 96 name ("_" <> hex),
    count_text 96 "_" hex,
    n',
    h',
  ),
)

-- The name of a spec was accepted.
abbrev pub Accepted : DbSpec → Type 0
Accepted spec = (kind : String) × (validate_name spec.name kind ≡ ok spec.name)

module _ {E : Type 0} (c : CreateCallables E) (hex-Plain : Returns (λ s _. Plain s) c.token_hex)
    (password-Plain : Returns (λ s _. Plain s) c.gen_password) where
  Drawn : List DbSpec → Accounts → World E → Type 0
  Drawn specs a w = (length a.grants ≡ length specs) × All GrantPlain a.grants

  draw_accounts-Drawn :
      (specs : List DbSpec) → All Accepted specs → Returns (Drawn specs) (draw_accounts c specs)
  unfolding draw_accounts Drawn GrantPlain
  draw_accounts-Drawn [] h = record { gives = λ w a w' k. returned (Drawn []) k (refl, tt) }
  draw_accounts-Drawn (spec ∷ specs) ((kind, ok_name), h) =
      Returns-after {P = Drawn (spec ∷ specs)} {Q = λ s _. Plain s} _ _ hex-Plain λ hex w a w' hx k.
        (Returns-after {P = Drawn (spec ∷ specs)} {Q = λ s _. Plain s} _ _ password-Plain
            λ p w a w' hp k.
              (Returns-after {P = Drawn (spec ∷ specs)} {Q = Drawn specs} _ _
                  (draw_accounts-Drawn specs h)
                  λ rest w a w' (n, all) k. returned (Drawn (spec ∷ specs)) k (
                    ap suc n,
                    (
                      (
                        user-Plain spec.name hex (name-Plain spec.name kind ok_name) hx,
                        hp,
                        name-Plain spec.name kind ok_name,
                      ),
                      all,
                    ),
                  )).gives
                w a w' k).gives
          w a w' k

  -- Where the names of the databases were accepted by `_validate_name`, and where token_hex and
  -- gen_password never return a text with a quote or a backtick: the SQL that is rendered for the
  -- drawn accounts has the ten quotes and two backticks of the template for each database and no
  -- other, so that no name ends a literal or an identifier.
  pub draw_accounts-Quoted :
      (specs : List DbSpec) (w : World E) (a : Accounts) (w' : World E)
      → All Accepted specs
      → draw_accounts c specs w ≡ (ok a, w')
      → (count 39 (codes (render_grant_sql a.grants)) ≡ 10 * length specs)
        × (count 96 (codes (render_grant_sql a.grants)) ≡ 2 * length specs)
  unfolding Drawn
  draw_accounts-Quoted specs w a w' h k =
      let (n, all) = (draw_accounts-Drawn specs h).gives w a w' k in
      let (q, b) = render_grant_sql-Quoted a.grants all in (rw (sym n) q, rw (sym n) b)
