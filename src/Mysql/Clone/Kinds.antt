-- ===== src/Mysql/Clone/Kinds.antt =====
-- How the errors of `clone_db` are classified.
use sansbox_sql.Base.{String, true, false, List, [], ◌∷◌, ◌≡◌, refl, Bool-cases, inl, inr, ℕ}
use sansbox_sql.Base.Text.{lower, occurs, is_prefix}
use sansbox_sql.Errors.{err, mysql_ops_error, dump}
use sansbox_sql.Docker.Compose.{succeeded}
use sansbox_sql.Process.{Machine, join}
use sansbox_sql.Mysql.{failure_text}
use sansbox_sql.Mysql.Clone.{CloneDb, Ended, conclude_clone, clone_text, restore_part, dump_part}
use sansbox_sql.Service.Failure.{mentions, classify_failure}
use sansbox_sql.Service.Failure.Mentions.{mentions-left, mentions-right}

mysqldump_mentioned : mentions "mysqldump" "mysqldump " ≡ true
unfolding mentions occurs is_prefix lower
mysqldump_mentioned = refl

module _ {W : Type 0} (m : Machine W) (c : CloneDb) where
  dump_part-mentions :
      (e : Ended) (stderr : List ℕ)
      → succeeded e.dump_rc ≡ false
      → (text : String) × (dump_part m c e stderr ≡ text ∷ []) × (mentions "mysqldump" text ≡ true)
  unfolding dump_part failure_text
  dump_part-mentions e stderr h =
      rw h
        (_, refl, mentions-left "mysqldump" _ _ (mentions-left "mysqldump" _ _ mysqldump_mentioned))

  clone_text-mentions :
      (e : Ended) (stderr : List ℕ)
      → succeeded e.dump_rc ≡ false
      → mentions "mysqldump" (clone_text m c e stderr) ≡ true
  unfolding clone_text restore_part join
  clone_text-mentions e stderr h =
      let (text, y, z) = dump_part-mentions e stderr h in
      elim (Bool-cases (succeeded e.restore_rc)) [
        | inl fine ↦ rw (fine, y) z
        | inr bad ↦ rw (bad, y) (mentions-right "mysqldump" _ _ (mentions-right "mysqldump" _ _ z))
      ]

  -- Where the dump process ended with another status than 0, `clone_db` raises an error that the
  -- service classifies as `dump`, whatever became of the restore process.
  pub conclude_clone-dump :
      (e : Ended) (stderr : List ℕ) (w : W)
      → succeeded e.dump_rc ≡ false
      → (conclude_clone m c e stderr w ≡ (err (mysql_ops_error (clone_text m c e stderr)), w))
        × ((classify_failure (mysql_ops_error (clone_text m c e stderr))).0 ≡ dump)
  unfolding conclude_clone classify_failure
  conclude_clone-dump e stderr w h = (rw h refl, rw (clone_text-mentions e stderr h) refl)
