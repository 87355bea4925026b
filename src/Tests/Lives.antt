-- ===== src/Tests/Lives.antt =====
-- A life of the table: a reservation, its success, a reset and the reaper.
use sansbox_sql.Base.{String}
use sansbox_sql.Base.{
  ◌+◌, ◌≤◌, some, none, [], ◌∷◌, string_eq, nat_eq, ◌≡◌, refl, sym, ap, inl, arith, All, Distinct,
  contains,
}
use sansbox_sql.Docker.{session_paths, allocate_port}
use sansbox_sql.Session.{Session, starting, ready, is_valid, is_starting}
use sansbox_sql.Session.Draft.{missing, row}
use sansbox_sql.Store
use sansbox_sql.Store.{Table, ids, get, used_ports}
use sansbox_sql.Service.{extended}
use sansbox_sql.Service.Json.{dump_specs}
use sansbox_sql.Service.Calls.{factory}
use sansbox_sql.Lifecycle.{reserves, readies, reads, extends, Reach, start, later}
use sansbox_sql.Lifecycle.Holders.{Holds}
use sansbox_sql.Lifecycle.Safety.{ports_unique, ttl_ceiling}
use sansbox_sql.Lifecycle.History.{Kept, here, next, row-Kept}
use sansbox_sql.Tests.Data.{settings}

abbrev placeholder : Session
placeholder = record {
  id = "a";
  ticket = "T-1";
  date = "2024-01-01";
  dbs_json = "[]";
  creds_enc = 0 ∷ [];
  host = "api.example.com";
  mysql_host = "db.example.com";
  port = 20001;
  container_name = "sandbox-a";
  compose_path = "/compose/a/docker-compose.yml";
  tls_dir = "/tls/a";
  log_dir = "/log/T-1-2024-01-01/a";
  created_at = 500;
  expires_at = 4100;
  max_extended_until = 500;
  ttl_extended = 0;
  status = starting;
}

abbrev live_row : Session
live_row = record placeholder {
  status = ready;
  creds_enc = 7 ∷ [];
  expires_at = 600;
  max_extended_until = 800;
}

abbrev extended_row : Session
extended_row = record live_row { expires_at = 750; ttl_extended = 1 }

reserved : Reach settings (record { table = placeholder ∷ []; resets = [] })
unfolding Store.reserve_session allocate_port contains used_ports missing is_valid row factory
    session_paths dump_specs
reserved =
    later start
      (reserves "a" "T-1" "2024-01-01" (session_paths "a" "T-1" "2024-01-01" settings) [] 500)

published : Reach settings (record { table = live_row ∷ []; resets = [] })
unfolding Store.update_to_ready get is_starting
published = later reserved (
    readies "a" (7 ∷ []) 500
      (λ r h. ap (λ found. elim found [ none ↦ 500 | some q ↦ q.created_at ]) (sym h)))

life : Reach settings (record { table = extended_row ∷ []; resets = live_row ∷ [] })
unfolding Store.update_ttl get extended
life = later (later published (reads "a" live_row refl refl refl)) (extends live_row (inl refl))

ports_unique_example :
    Distinct (ids (extended_row ∷ []))
    × ((a b : String) (r q : Session)
        → get a (extended_row ∷ []) ≡ some r
        → get b (extended_row ∷ []) ≡ some q
        → Holds r.status
        → Holds q.status
        → r.port ≡ q.port
        → r ≡ q)
    × All (λ r. (20001 ≤ r.port) × (r.port ≤ 20003)) (extended_row ∷ [])
ports_unique_example = ports_unique settings life

ttl_ceiling_example : (600 ≤ 750) × (750 ≤ 800) × (750 ≤ 500 + 100 + 150) × (1 ≤ 1)
unfolding get
ttl_ceiling_example = ttl_ceiling settings "a" extended_row (omega arith) life refl (inl refl)

row-Kept_example : (r' : Session) × (get "a" (extended_row ∷ []) ≡ some r') × Kept live_row r'
unfolding get Store.update_ttl extended
row-Kept_example =
    row-Kept settings "a" live_row published
      (next (next here (reads "a" live_row refl refl refl)) (extends live_row (inl refl))) refl
