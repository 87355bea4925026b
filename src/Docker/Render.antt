-- ===== src/Docker/Render.antt =====
-- api/docker_ops.py and templates/grant_user.sql.j2: the rendered files, and the root password.
-- `render` stands for Jinja with the two templates of the container; the template of the grants is
-- written out.
pub mod Accounts
pub mod Grants
pub mod Password
use Prim.Native.String.{String}
use Prim.Native.Char.{Char}
use sansbox_sql.Base.{◌<>◌, ℕ, zero, suc, List, [], ◌∷◌}
use sansbox_sql.Exec.{Exec, pure, ◌>>=◌, ◌>>◌}
use sansbox_sql.Docker.{SessionPaths}
use sansbox_sql.Service.Calls.{ComposeArgs, Grant}

-- `render_compose` and `render_mysqld_cnf` of the templates, `secrets.choice`, and the files
pub record Renderer (W : Type 0) : Type 0 where
  pub render_compose_template : ComposeArgs → Exec W String
  pub render_cnf_template : Exec W String
  pub choice : List Char → Exec W Char
  pub write_text : String → String → Exec W (Unit {0})
  pub chmod : String → ℕ → Exec W (Unit {0})

-- The body of the `for` of templates/grant_user.sql.j2
unfoldable pub grant_text : Grant → String
grant_text g =
    "CREATE USER IF NOT EXISTS '"
    <> (g.user
        <> ("'@'%' IDENTIFIED BY '"
            <> (g.password
                <> ("' REQUIRE SSL;\nGRANT SELECT, INSERT, UPDATE, DELETE, CREATE, DROP, INDEX, ALTER,\n      CREATE TEMPORARY TABLES, LOCK TABLES, EXECUTE, CREATE VIEW, SHOW VIEW,\n      CREATE ROUTINE, ALTER ROUTINE, EVENT, TRIGGER\n  ON `"
                    <> (g.db <> ("`.* TO '" <> (g.user <> "'@'%';\nFLUSH PRIVILEGES;\n")))))))

unfoldable pub render_grant_sql : List Grant → String
unfolding grant_text
render_grant_sql [] = ""
render_grant_sql (g ∷ grants) = grant_text g <> render_grant_sql grants

abbrev pub chars : String → List Char
chars String.[] = []
chars (String.◌∷◌ c s) = c ∷ chars s

-- `string.ascii_letters + string.digits`
abbrev pub alphabet : String
alphabet = "abcdefghijklmnopqrstuvwxyzABCDEFGHIJKLMNOPQRSTUVWXYZ0123456789"

module _ {W : Type 0} (r : Renderer W) where
  unfoldable pub render_compose : ComposeArgs → Exec W String
  render_compose a = do
    rendered ← r.render_compose_template a
    r.write_text a.paths.compose_path rendered
    r.chmod a.paths.compose_path 416
    pure a.paths.compose_path

  unfoldable pub render_mysqld_cnf : SessionPaths → Exec W String
  render_mysqld_cnf paths = do
    rendered ← r.render_cnf_template
    r.write_text paths.cnf_path rendered
    r.chmod paths.cnf_path 420
    pure paths.cnf_path

  unfoldable pub draw_chars : ℕ → Exec W String
  draw_chars zero = pure ""
  draw_chars (suc n) = do
    c ← r.choice (chars alphabet)
    rest ← draw_chars n
    pure (String.◌∷◌ c rest)

  unfoldable pub gen_root_password : Exec W String
  unfolding draw_chars
  gen_root_password = draw_chars 32
