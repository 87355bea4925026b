-- ===== src/Api/Readiness.antt =====
-- What a readiness of 200 means.
use sansbox_sql.Base.{
  String, ℕ, true, false, not, Option, none, some, List, [], ◌∷◌, ◌==◌, string_eq, ◌≡◌, refl, sym,
  ap, ◌∙◌, arith, Bool-cases, inl, inr,
}
use sansbox_sql.Errors.{Result, ok}
use sansbox_sql.Exec.{◌>>=◌}
use sansbox_sql.Exec.Returns.{
  Returns, Returns-bind, Returns-if, Returns-after, Returns-except_exception, returned, ok_inj,
}
use sansbox_sql.Docker.Compose.{succeeded, clip}
use sansbox_sql.Process.{Command, Output, Machine}
use sansbox_sql.Service.{World}
use sansbox_sql.Api.Operations.{
  Check, Readiness, all_passed, check_binary, binary_there, readiness, readyz, check_docker,
  docker_probe, docker_result,
}

module _ {E : Type 0} (m : Machine (World E)) (decode_strict : List ℕ → Result String) where
  -- The program was there_is on the PATH.
  pub OnPath : String → Type 0
  OnPath bin =
      (path : String) × (v : World E) × (v' : World E) × (m.which bin v ≡ (ok (some path), v'))
      × ((path == "") ≡ false)

  Checks : String → Check → World E → Type 0
  Checks bin c w = c.passed ≡ true → OnPath bin

  there_is :
      (bin : String) (o : Option String) (v v' : World E)
      → m.which bin v ≡ (ok o, v')
      → binary_there m decode_strict o ≡ true
      → OnPath bin
  unfolding binary_there OnPath
  there_is bin none v v' h y = absurd cc
  there_is bin (some path) v v' h y = (path, v, v', h, ground arith)

  check_binary-Checks : (bin : String) → Returns (Checks bin) (check_binary m decode_strict bin)
  unfolding check_binary Checks ◌>>=◌
  check_binary-Checks bin = record {
    gives = λ v c w' h.
        (Returns-after {P = Checks bin} {Q = λ o v'. m.which bin v ≡ (ok o, v')}
            (λ _. m.which bin v) (λ o w. (ok _, w)) (record { gives = λ _ o v' k. k })
            (λ o v' c w' k r. returned (Checks bin) r (λ y. there_is bin o v v' k y))).gives
          v c w' h;
  }

  -- `docker info` was run and exited with status 0.
  pub DockerAnswered : Type 0
  DockerAnswered =
      (c : Command) × (proc : Output) × (v : World E) × (v' : World E) × (c.argv
        ≡ "docker" ∷ "info" ∷ "--format" ∷ "{{.ServerVersion}}" ∷ [])
      × (m.run c v ≡ (ok proc, v'))
      × (succeeded proc.returncode ≡ true)

  DockerCheck : Check → World E → Type 0
  DockerCheck c w = c.passed ≡ true → DockerAnswered

  failed-DockerCheck :
      {name text : String}
      → Returns DockerCheck (λ w. (ok (record { name = name; passed = false; text = text }), w))
  unfolding DockerCheck
  failed-DockerCheck = record {
    gives = λ w c w' h.
        returned (λ (c : Check) (_ : World E). c.passed ≡ true → DockerAnswered) h (λ y. absurd cc);
  }

  down_result :
      (proc : Output)
      → succeeded proc.returncode ≡ false
      → docker_result m decode_strict proc
        ≡ ok (record { name = "docker"; passed = false; text = clip 200 (m.decode proc.stderr) })
  unfolding docker_result
  down_result proc n = rw n refl

  docker_failed :
      (proc : Output) (c : Check)
      → succeeded proc.returncode ≡ false
      → docker_result m decode_strict proc ≡ ok c
      → c.passed ≡ true
      → ⊥
  docker_failed proc c n h y = cc (ap Check.passed (ok_inj (sym (down_result proc n) ∙ h)), y)

  DockerRan : Output → World E → Type 0
  DockerRan proc v' =
      (c : Command) × (v : World E) × (c.argv
        ≡ "docker" ∷ "info" ∷ "--format" ∷ "{{.ServerVersion}}" ∷ [])
      × (m.run c v ≡ (ok proc, v'))

  answered_check :
      (proc : Output) (c : Check) (v w' : World E)
      → DockerRan proc v
      → Path (Result Check × World E) (docker_result m decode_strict proc, v) (ok c, w')
      → DockerCheck c w'
  unfolding DockerRan DockerCheck DockerAnswered
  answered_check proc c v w' (cmd, u, a, h) e y = elim (Bool-cases (succeeded proc.returncode)) [
    | inl fine ↦ (cmd, proc, u, v, a, h, fine)
    | inr bad ↦ absurd (docker_failed proc c bad (ap (λ p. p.0) e) y)
  ]

  docker_probe-DockerCheck :
      (path : Option String) → Returns DockerCheck (docker_probe m decode_strict path)
  unfolding docker_probe DockerRan
  docker_probe-DockerCheck path =
      Returns-if (not (binary_there m decode_strict path)) _ _ (λ _. failed-DockerCheck)
        λ _.
          Returns-after {P = DockerCheck} {Q = DockerRan} (m.run _) _
            (record { gives = λ v proc v' h. (_, v, refl, h) })
            (λ proc v c w' q h. answered_check proc c v w' q h)

  check_docker-DockerCheck : Returns DockerCheck (check_docker m decode_strict)
  unfolding check_docker
  check_docker-DockerCheck =
      Returns-except_exception (Returns-bind _ _ docker_probe-DockerCheck) (λ e. failed-DockerCheck)

  AllChecks : Readiness → World E → Type 0
  AllChecks r w =
      r.status_code ≡ 200
      → DockerAnswered × OnPath "mysqldump" × OnPath "mysql" × OnPath "mysqladmin"

  all_four :
      (a b c d e : Check)
      → (readiness m decode_strict (a ∷ b ∷ c ∷ d ∷ e ∷ [])).status_code ≡ 200
      → (b.passed ≡ true) × (c.passed ≡ true) × (d.passed ≡ true) × (e.passed ≡ true)
  unfolding readiness all_passed
  all_four a b c d e h = (ground arith, ground arith, ground arith, ground arith)

  -- If `readyz` answers with 200, then `docker info` was run and has exited with status 0, and each
  -- of `mysqldump`, `mysql` and `mysqladmin` was there_is on the PATH.
  pub readyz-OnPath :
      (w : World E) (r : Readiness) (w' : World E)
      → readyz m decode_strict w ≡ (ok r, w')
      → r.status_code ≡ 200
      → DockerAnswered × OnPath "mysqldump" × OnPath "mysql" × OnPath "mysqladmin"
  unfolding readyz AllChecks Checks DockerCheck
  readyz-OnPath w r w' h =
      (Returns-after {P = AllChecks} {Q = DockerCheck} (check_docker m decode_strict) _
          check_docker-DockerCheck
          λ docker v b v' g k.
            (Returns-after {P = AllChecks} {Q = Checks "mysqldump"} _ _
                (check_binary-Checks "mysqldump")
                λ dump v b v' p k.
                  (Returns-after {P = AllChecks} {Q = Checks "mysql"} _ _
                      (check_binary-Checks "mysql")
                      λ mysql v b v' q k.
                        (Returns-after {P = AllChecks} {Q = Checks "mysqladmin"} _ _
                            (check_binary-Checks "mysqladmin")
                            λ admin v b v' s k. returned AllChecks k λ y.
                              let (u, x, y', z) =
                                all_four (record { name = "sqlite"; passed = true; text = "" })
                                  docker dump mysql admin y in
                              (g u, p x, q y', s z)).gives
                          v b v' k).gives
                    v b v' k).gives
              v b v' k).gives
        w r w' h
