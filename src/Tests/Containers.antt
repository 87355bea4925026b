-- ===== src/Tests/Containers.antt =====
-- The theorems on the waiting for a container at concrete systems. The world is the time.
use Prim.Native.String.{String}
use sansbox_sql.Base.{ℕ, ◌+◌, ◌*◌, Bool, true, false, Option, some, ◌≡◌, ◌≢◌, refl, arith}
use sansbox_sql.Errors.{ok, docker_ops_error, port}
use sansbox_sql.Exec.{◌>>=◌}
use sansbox_sql.Docker.Compose.{Host, Completed, exited}
use sansbox_sql.Docker.Inspect.{
  Json, text, array, object, no_items, item, no_fields, field, published,
}
use sansbox_sql.Docker.Health.{Seen, timed_out, out_of_fuel, poll, wait_healthy, not_ready, seconds}
use sansbox_sql.Docker.Health.Ready.{wait_healthy-Connected}
use sansbox_sql.Docker.Health.Enough.{Clock, poll-in_time}
use sansbox_sql.Service.Failure.{classify_failure}
use sansbox_sql.Service.Failure.Unready.{not_ready-port}

abbrev steady : Completed → Bool → Host ℕ
steady proc open_now = record {
  run = λ args t w. (ok proc, w);
  connects = λ host p t w. (open_now, w);
  monotonic = λ w. w;
  sleep = λ n w. w + n * 1000000000;
}

abbrev inspected : Json
inspected = array (
    item
      (object (
        field "NetworkSettings"
          (object (
            field "Ports"
              (object (
                field "3306/tcp"
                  (array (item (object (field "HostPort" (text "20001") no_fields)) no_items))
                  no_fields))
              no_fields))
          no_fields))
      no_items)

published_port : published inspected ≡ some 20001
unfolding published
published_port = refl

abbrev parse : String → Option Json
parse s = some inspected

abbrev running : Host ℕ
running = steady (record { returncode = exited 0; stdout = "healthy\n"; stderr = "" }) true

abbrev stopped : Host ℕ
stopped = steady (record { returncode = exited 1; stdout = ""; stderr = "No such object" }) false

waited : wait_healthy running parse "sandbox-a" 10 0 ≡ (ok tt, 0)
unfolding wait_healthy ◌>>=◌
waited = refl

wait_healthy-Connected_example :
    (p : ℕ) × (v : ℕ) × (p ≢ 0) × (running.connects "127.0.0.1" p 2 v ≡ (true, 0))
wait_healthy-Connected_example = wait_healthy-Connected running parse "sandbox-a" 10 0 0 waited

abbrev unseen : Seen
unseen = record { last_status = "unknown"; last_tcp = "unknown" }

stopped-Clock : Clock stopped
stopped-Clock = record {
  run_lasts = λ args t w. omega arith;
  connect_lasts = λ host p t w. omega arith;
  sleep_lasts = λ n w. omega arith;
}

poll-in_time_example :
    (poll stopped parse 11 "sandbox-a" (5 + seconds 10) unseen 5).0 ≢ ok out_of_fuel
poll-in_time_example = poll-in_time stopped parse stopped-Clock 10 "sandbox-a" unseen 5

abbrev last_seen : Seen
last_seen = record { last_status = "unknown"; last_tcp = "port=None" }

given_up :
    poll stopped parse 4 "sandbox-a" (seconds 3) unseen 0 ≡ (ok (timed_out last_seen), 4000000000)
unfolding poll ◌>>=◌
given_up = refl

not_ready-port_example :
    (classify_failure (docker_ops_error (not_ready stopped parse "sandbox-a" 3 last_seen))).0 ≡ port
not_ready-port_example =
    not_ready-port stopped parse 3 "sandbox-a" 3 (seconds 3) unseen last_seen 0 4000000000
      (ground arith) given_up
