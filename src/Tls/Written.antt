-- ===== src/Tls/Written.antt =====
-- What `generate_session_tls` writes, by the builders of the code.
use sansbox_sql.Base.{String, ◌<>◌, string_eq, ℕ, Option, List, ◌≡◌, refl}
use sansbox_sql.Errors.{ok}
use sansbox_sql.Exec.{◌>>=◌}
use sansbox_sql.Exec.Returns.{Returns, Returns-bind, Returns-after, returned}
use sansbox_sql.Docker.{◌/◌}
use sansbox_sql.Tls.{
  X509, Desk, ca_builder, Leaf, leaf_builder, write_key, write_cert, build_ca, sign_leaf, issue,
  server_leaf, client_leaf, generate_session_tls,
}

module _ (x : X509) {W : Type 0} (d : Desk x W) where
  -- The file was written with these bytes, and then given its mode.
  pub Stored : String → List ℕ → ℕ → Type 0
  Stored path bytes mode =
      (v : W) × (v' : W) × (v'' : W) × (d.write_bytes path bytes v ≡ (ok tt, v'))
      × (d.chmod path mode v' ≡ (ok tt, v''))

  Stored-Returns :
      (path : String) (bytes : List ℕ) (mode : ℕ)
      → Returns
          (λ (_ : Unit {0}) (_ : W). Stored path bytes mode)
          (d.write_bytes path bytes >>= λ _. d.chmod path mode)
  unfolding Stored
  Stored-Returns path bytes mode =
      Returns-after {P = λ _ _. Stored path bytes mode}
        {Q = λ _ v'. (v : W) × (d.write_bytes path bytes v ≡ (ok tt, v'))}
        (d.write_bytes path bytes) (λ _. d.chmod path mode) (record { gives = λ v u v' h. (v, h) })
        (λ u v' b w' (v, h) k. (v, v', w', h, k))

  write_key-Stored :
      (dir name : String) (key : x.Key)
      → Returns (λ _ _. Stored (dir / name) (x.key_pem key) 384) (write_key x d dir name key)
  unfolding write_key
  write_key-Stored dir name key = Returns-bind _ _ λ _. Stored-Returns _ _ _

  write_cert-Stored :
      (dir name : String) (cert : x.Cert)
      → Returns (λ _ _. Stored (dir / name) (x.cert_pem cert) 420) (write_cert x d dir name cert)
  unfolding write_cert
  write_cert-Stored dir name cert = Returns-bind _ _ λ _. Stored-Returns _ _ _

  SignedBy : x.Cert → x.Key → Leaf x → x.Cert × x.Key → W → Type 0
  SignedBy ca_cert ca_key leaf p w =
      (serial : ℕ) × (now : ℕ) × (p.0
        ≡ x.sign (leaf_builder x ca_cert ca_key leaf p.1 serial now) ca_key)

  sign_leaf-SignedBy :
      (ca_cert : x.Cert) (ca_key : x.Key) (leaf : Leaf x)
      → Returns (SignedBy ca_cert ca_key leaf) (sign_leaf x d ca_cert ca_key leaf)
  unfolding sign_leaf SignedBy
  sign_leaf-SignedBy ca_cert ca_key leaf = Returns-bind _ _ λ key. Returns-bind _ _ λ now.
      Returns-bind _ _ λ serial. record {
        gives = λ w p w' h. returned (SignedBy ca_cert ca_key leaf) h (serial, now, refl);
      }

  -- A certificate for the leaf, signed with the CA's key, and its private key, in their files
  unfoldable pub IssuedFor : String → String → String → x.Cert → x.Key → Leaf x → Type 0
  IssuedFor dir cert_name key_name ca_cert ca_key leaf =
      (cert : x.Cert) × (key : x.Key) × (serial : ℕ) × (now : ℕ) × (cert
        ≡ x.sign (leaf_builder x ca_cert ca_key leaf key serial now) ca_key)
      × Stored (dir / cert_name) (x.cert_pem cert) 420
      × Stored (dir / key_name) (x.key_pem key) 384

  both-IssuedFor :
      (dir cert_name key_name : String) (ca_cert : x.Cert) (ca_key : x.Key) (leaf : Leaf x)
      (p : x.Cert × x.Key)
      → (serial : ℕ) × (now : ℕ) × (p.0
          ≡ x.sign (leaf_builder x ca_cert ca_key leaf p.1 serial now) ca_key)
      → Returns
          (λ _ _. IssuedFor dir cert_name key_name ca_cert ca_key leaf)
          (write_cert x d dir cert_name p.0 >>= λ _. write_key x d dir key_name p.1)
  unfolding IssuedFor
  both-IssuedFor dir cert_name key_name ca_cert ca_key leaf p (serial, now, e) =
      Returns-after {P = λ _ _. IssuedFor dir cert_name key_name ca_cert ca_key leaf}
        {Q = λ _ _. Stored (dir / cert_name) (x.cert_pem p.0) 420} _ _
        (write_cert-Stored dir cert_name p.0)
        (λ _ v u v' s k.
          (p.0, p.1, serial, now, e, s, (write_key-Stored dir key_name p.1).gives v u v' k))

  issue-IssuedFor :
      (dir cert_name key_name : String) (ca_cert : x.Cert) (ca_key : x.Key) (leaf : Leaf x)
      → Returns
          (λ _ _. IssuedFor dir cert_name key_name ca_cert ca_key leaf)
          (issue x d dir cert_name key_name ca_cert ca_key leaf)
  unfolding issue SignedBy
  issue-IssuedFor dir cert_name key_name ca_cert ca_key leaf =
      Returns-after {P = λ _ _. IssuedFor dir cert_name key_name ca_cert ca_key leaf}
        {Q = SignedBy ca_cert ca_key leaf} _ _ (sign_leaf-SignedBy ca_cert ca_key leaf)
        (λ p v u v' q k.
          (both-IssuedFor dir cert_name key_name ca_cert ca_key leaf p q).gives v u v' k)

  Founded : String → x.Cert × x.Key → W → Type 0
  Founded sid p w =
      (serial : ℕ) × (now : ℕ) × (p.0
        ≡ x.sign (ca_builder x ("sandbox-ca-" <> sid) p.1 serial now) p.1)

  build_ca-Founded : (sid : String) → Returns (Founded sid) (build_ca x d ("sandbox-ca-" <> sid))
  unfolding build_ca Founded
  build_ca-Founded sid = Returns-bind _ _ λ key. Returns-bind _ _ λ now.
      Returns-bind _ _
        λ serial. record { gives = λ w p w' h. returned (Founded sid) h (serial, now, refl) }

  -- The CA and the two leaves, in the files of the session
  unfoldable pub Generated : String → String → String → Option String → Type 0
  Generated sid dir host ip =
      (ca_cert : x.Cert) × (ca_key : x.Key) × (serial : ℕ) × (now : ℕ) × (ca_cert
        ≡ x.sign (ca_builder x ("sandbox-ca-" <> sid) ca_key serial now) ca_key)
      × Stored (dir / "ca.pem") (x.cert_pem ca_cert) 420
      × Stored (dir / "ca.key") (x.key_pem ca_key) 384
      × IssuedFor dir "server-cert.pem" "server-key.pem" ca_cert ca_key (server_leaf x d host ip)
      × IssuedFor dir "client-cert.pem" "client-key.pem" ca_cert ca_key (client_leaf x d sid)

  pub generate_lem :
      (sid dir host : String) (ip : Option String)
      → Returns (λ _ _. Generated sid dir host ip) (generate_session_tls x d sid dir host ip)
  unfolding generate_session_tls Founded Generated
  generate_lem sid dir host ip = Returns-bind _ _ λ _.
      Returns-after {P = λ _ _. Generated sid dir host ip} {Q = Founded sid} _ _
        (build_ca-Founded sid)
        λ ca v b v' (serial, now, e) k.
          (Returns-after {P = λ _ _. Generated sid dir host ip}
              {Q = λ _ _. Stored (dir / "ca.pem") (x.cert_pem ca.0) 420} _ _
              (write_cert-Stored dir "ca.pem" ca.0)
              λ _ v b v' s1 k.
                (Returns-after {P = λ _ _. Generated sid dir host ip}
                    {Q = λ _ _. Stored (dir / "ca.key") (x.key_pem ca.1) 384} _ _
                    (write_key-Stored dir "ca.key" ca.1)
                    λ _ v b v' s2 k.
                      (Returns-after {P = λ _ _. Generated sid dir host ip}
                          {Q = λ _ _.
                            IssuedFor dir "server-cert.pem" "server-key.pem" ca.0 ca.1
                              (server_leaf x d host ip)}
                          _ _ (issue-IssuedFor dir "server-cert.pem" "server-key.pem" ca.0 ca.1 _)
                          λ _ v b v' s3 k.
                            (Returns-after {P = λ _ _. Generated sid dir host ip}
                                {Q = λ _ _.
                                  IssuedFor dir "client-cert.pem" "client-key.pem" ca.0 ca.1
                                    (client_leaf x d sid)}
                                _ _
                                (issue-IssuedFor dir "client-cert.pem" "client-key.pem" ca.0 ca.1 _)
                                λ _ v b v' s4 k. (ca.0, ca.1, serial, now, e, s1, s2, s3, s4)).gives
                              v b v' k).gives
                        v b v' k).gives
                  v b v' k).gives
            v b v' k
