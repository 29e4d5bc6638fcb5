-- ===== src/Clients/Tls.antt =====
-- clients/tls/tls.go: the configuration of TLS. The file system and crypto/x509 are parameters.
use fuck.Base.{
  ℕ, Bool, false, ◌&&◌, [], Option, none, some, Bytes, codes, length, same, ltb, ◌==◌,
  if◌then◌else◌,
}

-- the fields of the message that tls.go reads
pub record TlsOptions : Type 0 where
  pub ca_file : Bytes
  pub cert_file : Bytes
  pub key_file : Bytes
  pub server_name : Bytes
  pub insecure_skip_verify : Bool
  pub min_version : Bytes

-- `tls.Config`: the roots by the text they were read from, and the files of the client's certificate
pub record TlsConfig : Type 0 where
  pub insecure_skip_verify : Bool
  pub min_version : ℕ
  pub root_cas : Option Bytes
  pub server_name : Bytes
  pub client_certificate : Option (Bytes × Bytes)

pub data TlsError : Type 0 where
  no_ca_file bad_ca_file no_key_file no_cert_file bad_key_pair : TlsError

pub data Made : Type 0 where
  made : (config : TlsConfig) → Made
  refused : (err : TlsError) → Made

-- `os.ReadFile`, `AppendCertsFromPEM`, and `LoadX509KeyPair` without an error
pub record Files : Type 0 where
  pub read_file : Bytes → Option Bytes
  pub is_pem : Bytes → Bool
  pub is_key_pair : Bytes → Bytes → Bool

-- `Versions`, where a name that is not listed gives 0
abbrev pub version : Bytes → ℕ
version name =
    if same name (codes "TLS13")
    then 772
    else if same name (codes "TLS12")
    then 771
    else if same name (codes "TLS11")
    then 770
    else if same name (codes "TLS10")
    then 769
    else 0

abbrev pub empty_config : TlsConfig
empty_config = record {
  insecure_skip_verify = false;
  min_version = 0;
  root_cas = none;
  server_name = [];
  client_certificate = none;
}

module _ (files : Files) where
  -- `readCAFile` and `updateRootCA`
  abbrev pub with_roots : TlsConfig → Option Bytes → Made
  with_roots config none = refused no_ca_file
  with_roots config (some b) =
      if files.is_pem b then made (record config { root_cas = some b }) else refused bad_ca_file

  abbrev pub with_ca : TlsOptions → TlsConfig → Made
  with_ca cfg config =
      if ltb 0 (length cfg.ca_file)
      then with_roots config (files.read_file cfg.ca_file)
      else made config

  -- the server name and the certificate of the client
  abbrev pub with_client : TlsOptions → TlsConfig → Made
  with_client cfg config =
      let named : TlsConfig =
        if ltb 0 (length cfg.server_name)
        then record config { server_name = cfg.server_name }
        else config in
      if ltb 0 (length cfg.cert_file) && (length cfg.key_file == 0)
      then refused no_key_file
      else if ltb 0 (length cfg.key_file) && (length cfg.cert_file == 0)
      then refused no_cert_file
      else if ltb 0 (length cfg.cert_file) && ltb 0 (length cfg.key_file)
      then if files.is_key_pair cfg.cert_file cfg.key_file
        then made (record named { client_certificate = some (cfg.cert_file, cfg.key_file) })
        else refused bad_key_pair
      else made named

  -- `NewTLSConfig`
  unfoldable pub new_tls_config : Option TlsOptions → Made
  new_tls_config none = made empty_config
  new_tls_config (some cfg) =
      elim (with_ca cfg (record {
        insecure_skip_verify = cfg.insecure_skip_verify;
        min_version = version cfg.min_version;
        root_cas = none;
        server_name = [];
        client_certificate = none;
      })) [ refused err ↦ refused err | made config ↦ with_client cfg config ]
