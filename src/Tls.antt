-- ===== src/Tls.antt =====
-- api/tls_ops.py: the certificates of one session. `X509` stands for the cryptography library, and
-- `Desk` for the random keys and numbers, the clock and the files. Times are seconds.
pub mod Trusted
pub mod Written
use sansbox_sql.Base.{
  String, ◌<>◌, ℕ, ◌+◌, ◌-◌, ◌*◌, Bool, true, false, Option, none, some, List, [], ◌∷◌, ◌++◌,
  if◌then◌else◌, ◌==◌, string_eq,
}
use sansbox_sql.Exec.{Exec, pure, gets, ◌>>=◌, ◌>>◌}
use sansbox_sql.Docker.{◌/◌}

pub data GeneralName : Type 0 where
  dns_name ip_address : String → GeneralName

-- The usages that a key may have, of those that the code sets to True
pub data Usage : Type 0 where
  digital_signature key_cert_sign crl_sign : Usage

pub data Extension (Public : Type 0) : Type 0 where
  basic_constraints : Bool → Option ℕ → Extension Public
  key_usage : List Usage → Extension Public
  alternative_names : List GeneralName → Extension Public
  server_auth client_auth : Extension Public
  subject_key authority_key : Public → Extension Public

-- What a `CertificateBuilder` was told; an extension stands with whether it is critical.
pub record Builder (Public : Type 0) : Type 0 where
  pub subject : String
  pub issuer : String
  pub public_key : Public
  pub serial_number : ℕ
  pub not_valid_before : ℕ
  pub not_valid_after : ℕ
  pub extensions : List (Extension Public × Bool)

pub record X509 : Type 1 where
  pub Key : Type 0
  pub Public : Type 0
  pub Cert : Type 0
  pub public_of : Key → Public
  pub sign : Builder Public → Key → Cert
  pub subject_of : Cert → String
  pub key_pem : Key → List ℕ
  pub cert_pem : Cert → List ℕ
  pub is_ipv4 : String → Bool

pub record Desk (x : X509) (W : Type 0) : Type 0 where
  pub generate_key : Exec W x.Key
  pub random_serial : Exec W ℕ
  pub now : W → ℕ
  pub mkdir : String → Exec W (Unit {0})
  pub write_bytes : String → List ℕ → Exec W (Unit {0})
  pub chmod : String → ℕ → Exec W (Unit {0})

pub record TlsMaterial : Type 0 where
  pub ca_cert_path : String
  pub ca_key_path : String
  pub server_cert_path : String
  pub server_key_path : String
  pub client_cert_path : String
  pub client_key_path : String

-- `CERT_VALIDITY_DAYS`, in seconds
abbrev pub cert_validity : ℕ
cert_validity = 365 * 86400

module _ (x : X509) where
  -- The alternative names: an address that is not valid is logged and left out.
  unfoldable pub san_ips : List String → List GeneralName
  san_ips [] = []
  san_ips (ip ∷ ips) = let rest = san_ips ips in if x.is_ipv4 ip then ip_address ip ∷ rest else rest

  unfoldable pub san_entries : List String → List String → List GeneralName
  unfolding san_ips
  san_entries [] ips = san_ips ips
  san_entries (dns ∷ names) ips = dns_name dns ∷ san_entries names ips

  unfoldable pub ca_builder : String → x.Key → ℕ → ℕ → Builder x.Public
  ca_builder common_name key serial now = record {
    subject = common_name;
    issuer = common_name;
    public_key = x.public_of key;
    serial_number = serial;
    not_valid_before = now - 60;
    not_valid_after = now + cert_validity * 2;
    extensions =
        (basic_constraints true (some 0), true)
        ∷ (key_usage (digital_signature ∷ key_cert_sign ∷ crl_sign ∷ []), true)
        ∷ (subject_key (x.public_of key), false)
        ∷ [];
  }

  -- The arguments of `_sign_leaf` beside the CA
  pub record Leaf : Type 0 where
    pub common_name : String
    pub sans_dns : List String
    pub sans_ip : List String
    pub for_server : Bool

  unfoldable pub leaf_builder : x.Cert → x.Key → Leaf → x.Key → ℕ → ℕ → Builder x.Public
  unfolding san_entries
  leaf_builder ca_cert ca_key leaf key serial now = record {
    subject = leaf.common_name;
    issuer = x.subject_of ca_cert;
    public_key = x.public_of key;
    serial_number = serial;
    not_valid_before = now - 60;
    not_valid_after = now + cert_validity;
    extensions =
        (alternative_names (san_entries leaf.sans_dns leaf.sans_ip), false)
        ∷ (basic_constraints false none, true)
        ∷ ((if leaf.for_server then server_auth else client_auth), false)
        ∷ (subject_key (x.public_of key), false)
        ∷ (authority_key (x.public_of ca_key), false)
        ∷ [];
  }

  module _ {W : Type 0} (d : Desk x W) where
    -- `path.parent` of a file in `dir` is `dir`.
    unfoldable pub write_key : String → String → x.Key → Exec W (Unit {0})
    write_key dir name key = do
      d.mkdir dir
      d.write_bytes (dir / name) (x.key_pem key)
      d.chmod (dir / name) 384

    unfoldable pub write_cert : String → String → x.Cert → Exec W (Unit {0})
    write_cert dir name cert = do
      d.mkdir dir
      d.write_bytes (dir / name) (x.cert_pem cert)
      d.chmod (dir / name) 420

    unfoldable pub build_ca : String → Exec W (x.Cert × x.Key)
    unfolding ca_builder
    build_ca common_name = do
      key ← d.generate_key
      now ← gets d.now
      serial ← d.random_serial
      pure (x.sign (ca_builder common_name key serial now) key, key)

    unfoldable pub sign_leaf : x.Cert → x.Key → Leaf → Exec W (x.Cert × x.Key)
    unfolding leaf_builder
    sign_leaf ca_cert ca_key leaf = do
      key ← d.generate_key
      now ← gets d.now
      serial ← d.random_serial
      pure (x.sign (leaf_builder ca_cert ca_key leaf key serial now) ca_key, key)

    -- `[mysql_host_ip] if mysql_host_ip else []`
    host_ips : Option String → List String
    host_ips none = []
    host_ips (some ip) = if ip == "" then [] else ip ∷ []

    unfoldable pub server_leaf : String → Option String → Leaf
    unfolding host_ips
    server_leaf container_hostname mysql_host_ip = record {
      common_name = container_hostname;
      sans_dns = container_hostname ∷ [];
      sans_ip = host_ips mysql_host_ip ++ ("127.0.0.1" ∷ []);
      for_server = true;
    }

    unfoldable pub client_leaf : String → Leaf
    client_leaf sid = record {
      common_name = "sandbox-client-" <> sid;
      sans_dns = ("client." <> (sid <> ".sandbox")) ∷ [];
      sans_ip = [];
      for_server = false;
    }

    -- A leaf, and its two files
    unfoldable pub issue : String → String → String → x.Cert → x.Key → Leaf → Exec W (Unit {0})
    unfolding sign_leaf write_cert write_key
    issue out_dir cert_name key_name ca_cert ca_key leaf = do
      (cert, key) ← sign_leaf ca_cert ca_key leaf
      write_cert out_dir cert_name cert
      write_key out_dir key_name key

    unfoldable pub generate_session_tls :
        String → String → String → Option String → Exec W TlsMaterial
    unfolding build_ca write_cert write_key issue server_leaf client_leaf
    generate_session_tls sid out_dir container_hostname mysql_host_ip = do
      d.mkdir out_dir
      (ca_cert, ca_key) ← build_ca ("sandbox-ca-" <> sid)
      write_cert out_dir "ca.pem" ca_cert
      write_key out_dir "ca.key" ca_key
      issue out_dir "server-cert.pem" "server-key.pem" ca_cert ca_key
          (server_leaf container_hostname mysql_host_ip)
      issue out_dir "client-cert.pem" "client-key.pem" ca_cert ca_key (client_leaf sid)
      pure (record {
        ca_cert_path = out_dir / "ca.pem";
        ca_key_path = out_dir / "ca.key";
        server_cert_path = out_dir / "server-cert.pem";
        server_key_path = out_dir / "server-key.pem";
        client_cert_path = out_dir / "client-cert.pem";
        client_key_path = out_dir / "client-key.pem";
      })
