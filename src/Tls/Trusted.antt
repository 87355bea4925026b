-- ===== src/Tls/Trusted.antt =====
-- What the certificates of a session say.
use sansbox_sql.Base.{
  String, ◌<>◌, ◌+◌, ◌-◌, ◌*◌, ◌==◌, string_eq, ℕ, true, false, Option, none, some, List, [], ◌∷◌,
  ◌++◌, if◌then◌else◌, ◌≡◌, refl, Bool-cases, inl, inr,
}
use sansbox_sql.Errors.{ok}
use sansbox_sql.Tls.Written.{Stored, IssuedFor, Generated, generate_lem}
use sansbox_sql.Docker.{◌/◌}
use sansbox_sql.Tls.{
  GeneralName, dns_name, ip_address, digital_signature, key_cert_sign, crl_sign, Extension,
  basic_constraints, key_usage, alternative_names, server_auth, client_auth, subject_key,
  authority_key, Builder, X509, Desk, TlsMaterial, san_ips, san_entries, ca_builder, leaf_builder,
  host_ips, server_leaf, client_leaf, generate_session_tls,
}

san_ips-append :
    (x : X509) (ips : List String) (ip : String)
    → x.is_ipv4 ip ≡ true
    → san_ips x (ips ++ (ip ∷ [])) ≡ san_ips x ips ++ (ip_address ip ∷ [])
unfolding san_ips
san_ips-append x [] ip h = rw h refl
san_ips-append x (i ∷ ips) ip h = elim (Bool-cases (x.is_ipv4 i)) [
  | inl y ↦ rw y (λ k. ip_address i ∷ san_ips-append x ips ip h k)
  | inr n ↦ rw n (san_ips-append x ips ip h)
]

module _ (x : X509) {W : Type 0} (d : Desk x W) where
  -- The IPv4 address that the server's certificate has beside 127.0.0.1, if it is one
  pub extra_address : Option String → List GeneralName
  extra_address none = []
  extra_address (some ip) = if ip == "" then [] else if x.is_ipv4 ip then ip_address ip ∷ [] else []

  host_ips_lem : (ip : Option String) → san_ips x (host_ips x d ip) ≡ extra_address ip
  unfolding san_ips host_ips extra_address
  host_ips_lem none = refl
  host_ips_lem (some ip) = elim (Bool-cases (ip == "")) [ inl y ↦ rw y refl | inr n ↦ rw n refl ]

  -- What the certificate of the CA says: itself as its issuer, two years, and that its key may sign
  -- certificates, but not those of another CA
  pub record RootOf (common_name : String) (key : x.Key) (b : Builder x.Public) : Type 0 where
    pub made_at : ℕ
    pub subject : b.subject ≡ common_name
    pub issuer : b.issuer ≡ common_name
    pub public_key : b.public_key ≡ x.public_of key
    pub valid_from : b.not_valid_before ≡ made_at - 60
    pub valid_to : b.not_valid_after ≡ made_at + 2 * (365 * 86400)
    pub extensions :
        b.extensions
        ≡ (basic_constraints true (some 0), true)
          ∷ (key_usage (digital_signature ∷ key_cert_sign ∷ crl_sign ∷ []), true)
          ∷ (subject_key (x.public_of key), false)
          ∷ []

  -- What a leaf says: the CA as its issuer, one year, its names, that it is no CA, and its one purpose
  pub record LeafOf (ca_cert : x.Cert) (ca_key : x.Key) (common_name : String)
      (names : List GeneralName) (purpose : Extension x.Public) (key : x.Key) (b : Builder x.Public)
      : Type 0 where
    pub made_at : ℕ
    pub subject : b.subject ≡ common_name
    pub issuer : b.issuer ≡ x.subject_of ca_cert
    pub public_key : b.public_key ≡ x.public_of key
    pub valid_from : b.not_valid_before ≡ made_at - 60
    pub valid_to : b.not_valid_after ≡ made_at + 365 * 86400
    pub extensions :
        b.extensions
        ≡ (alternative_names names, false)
          ∷ (basic_constraints false none, true)
          ∷ (purpose, false)
          ∷ (subject_key (x.public_of key), false)
          ∷ (authority_key (x.public_of ca_key), false)
          ∷ []

  -- A leaf that is signed with the CA's key, and its private key, in their files
  pub Issued :
      String
      → String
      → String
      → x.Cert
      → x.Key
      → String
      → List GeneralName
      → Extension x.Public
      → Type 0
  Issued dir cert_name key_name ca_cert ca_key common_name names purpose =
      (cert : x.Cert) × (key : x.Key) × (b : Builder x.Public) × LeafOf ca_cert ca_key common_name
        names purpose key b
      × (cert ≡ x.sign b ca_key)
      × Stored x d (dir / cert_name) (x.cert_pem cert) 420
      × Stored x d (dir / key_name) (x.key_pem key) 384

  -- The CA and the two leaves, in the files of the session
  pub Trusted : String → String → String → Option String → Type 0
  Trusted sid dir host ip =
      (ca_cert : x.Cert) × (ca_key : x.Key) × (b : Builder x.Public) × RootOf ("sandbox-ca-" <> sid)
        ca_key b
      × (ca_cert ≡ x.sign b ca_key)
      × Stored x d (dir / "ca.pem") (x.cert_pem ca_cert) 420
      × Stored x d (dir / "ca.key") (x.key_pem ca_key) 384
      × Issued dir "server-cert.pem" "server-key.pem" ca_cert ca_key host
          (dns_name host ∷ (extra_address ip ++ (ip_address "127.0.0.1" ∷ []))) server_auth
      × Issued dir "client-cert.pem" "client-key.pem" ca_cert ca_key ("sandbox-client-" <> sid)
          (dns_name ("client." <> (sid <> ".sandbox")) ∷ []) client_auth

  root_lem :
      (sid : String) (key : x.Key) (serial now : ℕ)
      → RootOf ("sandbox-ca-" <> sid) key (ca_builder x ("sandbox-ca-" <> sid) key serial now)
  unfolding ca_builder
  root_lem sid key serial now = record {
    made_at = now;
    subject = refl;
    issuer = refl;
    public_key = refl;
    valid_from = refl;
    valid_to = refl;
    extensions = refl;
  }

  server_lem :
      (host : String) (ip : Option String) (ca_cert : x.Cert) (ca_key key : x.Key) (serial now : ℕ)
      → x.is_ipv4 "127.0.0.1" ≡ true
      → LeafOf ca_cert ca_key host
          (dns_name host ∷ (extra_address ip ++ (ip_address "127.0.0.1" ∷ [])))
          server_auth
          key
          (leaf_builder x ca_cert ca_key (server_leaf x d host ip) key serial now)
  unfolding leaf_builder server_leaf san_entries
  server_lem host ip ca_cert ca_key key serial now loopback =
      rw (san_ips-append x (host_ips x d ip) "127.0.0.1" loopback, host_ips_lem ip)
        (record {
          made_at = now;
          subject = refl;
          issuer = refl;
          public_key = refl;
          valid_from = refl;
          valid_to = refl;
          extensions = refl;
        })

  client_lem :
      (sid : String) (ca_cert : x.Cert) (ca_key key : x.Key) (serial now : ℕ)
      → LeafOf ca_cert ca_key
          ("sandbox-client-" <> sid)
          (dns_name ("client." <> (sid <> ".sandbox")) ∷ [])
          client_auth
          key
          (leaf_builder x ca_cert ca_key (client_leaf x d sid) key serial now)
  unfolding leaf_builder client_leaf san_entries san_ips
  client_lem sid ca_cert ca_key key serial now = record {
    made_at = now;
    subject = refl;
    issuer = refl;
    public_key = refl;
    valid_from = refl;
    valid_to = refl;
    extensions = refl;
  }

  described :
      (sid dir host : String) (ip : Option String)
      → x.is_ipv4 "127.0.0.1" ≡ true
      → Generated x d sid dir host ip
      → Trusted sid dir host ip
  unfolding Generated IssuedFor Trusted Issued
  described sid dir host ip loopback (ca_cert, ca_key, serial, now, e, s1, s2, server, client) =
      let (cert, key, n, t, signed, s3, s4) = server in
      let (cert', key', n', t', signed', s5, s6) = client in
      (
        ca_cert,
        ca_key,
        ca_builder x ("sandbox-ca-" <> sid) ca_key serial now,
        root_lem sid ca_key serial now,
        e,
        s1,
        s2,
        (cert, key, _, server_lem host ip ca_cert ca_key key n t loopback, signed, s3, s4),
        (cert', key', _, client_lem sid ca_cert ca_key key' n' t', signed', s5, s6),
      )

  -- Where 127.0.0.1 is an IPv4 address: if `generate_session_tls` returns, then the session's
  -- directory was given a CA certificate that is signed with the CA's own key and is its own issuer,
  -- and a server and a client certificate that are signed with that key and name that CA as issuer.
  -- The server's certificate is for servers alone, and names the container's host, the host's address
  -- if that is an IPv4 address, and 127.0.0.1, over which the API reaches the server; the client's is
  -- for clients alone. The CA is valid for two years and may sign no further CA, the leaves are valid
  -- for one year and are no CA. Each file was written and then given its mode, 0o600 for the private
  -- keys and 0o644 for the certificates.
  pub generate_session_tls-Trusted :
      (sid dir host : String) (ip : Option String) (w : W) (t : TlsMaterial) (w' : W)
      → x.is_ipv4 "127.0.0.1" ≡ true
      → generate_session_tls x d sid dir host ip w ≡ (ok t, w')
      → Trusted sid dir host ip
  generate_session_tls-Trusted sid dir host ip w t w' loopback h =
      described sid dir host ip loopback ((generate_lem x d sid dir host ip).gives w t w' h)
