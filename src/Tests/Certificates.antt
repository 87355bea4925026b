-- ===== src/Tests/Certificates.antt =====
-- The theorems on the certificates, the grants and the root password. The library of certificates is concrete: a key is
-- a number, a certificate is its builder. The world is the next number.
use sansbox_sql.Base.{String, List, ℕ, suc, true, none, [], ◌∷◌, ◌≡◌, refl}
use sansbox_sql.Base.Text.{codes}
use sansbox_sql.Errors.{ok, err, other_error}
use sansbox_sql.Exec.{Exec, ◌>>=◌}
use sansbox_sql.Tls.{Builder, X509, Desk, TlsMaterial, generate_session_tls}
use Prim.Native.Char.{Char}
use sansbox_sql.Docker.Render.{Renderer, render_grant_sql}
use sansbox_sql.Docker.Render.Grants.{count, Plain}
use sansbox_sql.Docker.Render.Accounts.{Accepted, draw_accounts-Quoted}
use sansbox_sql.Models.{DbSpec, omitted, table_list, is_full, validate_name}
use sansbox_sql.Service.Steps.{Accounts, draw_accounts}
use sansbox_sql.Exec.Returns.{Returns, returned}
use sansbox_sql.Tests.Calls.{create_callables, start}
use sansbox_sql.Tls.Trusted.{Trusted, generate_session_tls-Trusted}

abbrev x509 : X509
x509 = record {
  Key = ℕ;
  Public = ℕ;
  Cert = Builder ℕ;
  public_of = λ k. k;
  sign = λ b k. b;
  subject_of = λ b. b.subject;
  key_pem = λ k. k ∷ [];
  cert_pem = λ b. b.serial_number ∷ [];
  is_ipv4 = λ ip. true;
}

abbrev desk : Desk x509 ℕ
desk = record {
  generate_key = λ w. (ok w, suc w);
  random_serial = λ w. (ok w, suc w);
  now = λ w. 1000;
  mkdir = λ dir w. (ok tt, w);
  write_bytes = λ path bytes w. (ok tt, w);
  chmod = λ path mode w. (ok tt, w);
}

abbrev material : TlsMaterial
material = record {
  ca_cert_path = "/tls/ca.pem";
  ca_key_path = "/tls/ca.key";
  server_cert_path = "/tls/server-cert.pem";
  server_key_path = "/tls/server-key.pem";
  client_cert_path = "/tls/client-cert.pem";
  client_key_path = "/tls/client-key.pem";
}

generated : generate_session_tls x509 desk "s" "/tls" "box" none 7 ≡ (ok material, 13)
unfolding generate_session_tls ◌>>=◌
generated = refl

generate_session_tls-Trusted_example : Trusted x509 desk "s" "/tls" "box" none
generate_session_tls-Trusted_example =
    generate_session_tls-Trusted x509 desk "s" "/tls" "box" none 7 material 13 refl generated

abbrev shop : DbSpec
shop = record { name = "shop"; tables = omitted }

abbrev accounts : Accounts
accounts = record {
  db_creds =
      record { name = "shop"; user = "u_shop_abcd"; password = "secret"; tables = none } ∷ [];
  grants = record { db = "shop"; user = "u_shop_abcd"; password = "secret" } ∷ [];
}

token_hex-Plain : Returns (λ s _. Plain s) create_callables.token_hex
unfolding Plain count
token_hex-Plain = record { gives = λ w s w' h. returned (λ s _. Plain s) h (refl, refl) }

gen_password-Plain : Returns (λ s _. Plain s) create_callables.gen_password
unfolding Plain count
gen_password-Plain = record { gives = λ w s w' h. returned (λ s _. Plain s) h (refl, refl) }

drawn : draw_accounts create_callables (shop ∷ []) start ≡ (ok accounts, start)
unfolding draw_accounts ◌>>=◌ table_list is_full
drawn = refl

shop-Accepted : Accepted shop
unfolding validate_name
shop-Accepted = ("db", refl)

draw_accounts-Quoted_example :
    (count 39 (codes (render_grant_sql accounts.grants)) ≡ 10)
    × (count 96 (codes (render_grant_sql accounts.grants)) ≡ 2)
draw_accounts-Quoted_example =
    draw_accounts-Quoted create_callables token_hex-Plain gen_password-Plain (shop ∷ []) start
      accounts start (shop-Accepted, tt) drawn

-- `secrets.choice` that always gives the first entry
abbrev pick : List Char → Exec ℕ Char
pick [] w = (err (other_error "IndexError"), w)
pick (c ∷ cs) w = (ok c, w)

abbrev renderer : Renderer ℕ
renderer = record {
  render_compose_template = λ args w. (ok "", w);
  render_cnf_template = λ w. (ok "", w);
  choice = pick;
  write_text = λ path text w. (ok tt, w);
  chmod = λ path mode w. (ok tt, w);
}

abbrev root_password : String
root_password = "aaaaaaaaaaaaaaaaaaaaaaaaaaaaaaaa"
