-- ===== src/Serving.antt =====
-- pkg/metrics/server: the configuration of the metrics server, its TLS policy, and its set-up. The
-- names of TLS versions and ciphers are read by k8s.io/component-base/cli/flag, and the server is
-- built by sigs.k8s.io/controller-runtime: both are parameters.
pub mod Secured
pub mod Branches
pub mod Names
use resource_topology_export.Base.{
  ℕ, Bool, true, false, not, ◌++◌, Option, none, some, List, [], ◌∷◌, Text, Result, ok, failed,
  nat_beq, text_beq, if◌then◌else◌,
}
use resource_topology_export.Base.Int.{Int64, lt64}
use resource_topology_export.Base.Strings.{
  Parsed, codes, format_int, is_space, parse_int, split, trim,
}
use resource_topology_export.Config.{TlsConfig, default_tls_config}

abbrev pub serving_disabled : Text
serving_disabled = codes "disabled"

abbrev pub serving_http : Text
serving_http = codes "http"

abbrev pub serving_http_tls : Text
serving_http_tls = codes "httptls"

-- Config
pub record ServingConfig : Type 0 where
  pub ip : Text
  pub port : Int64
  pub tls : TlsConfig

-- NewConfig
abbrev pub new_config : Text → Int64 → TlsConfig → ServingConfig
new_config ip port tls = record { ip = ip; port = port; tls = tls }

-- NewDefaultConfig
abbrev pub new_default_config : ServingConfig
new_default_config = new_config (codes "0.0.0.0") 2112 default_tls_config

-- TLSConfig.Clone
unfoldable pub clone_tls : TlsConfig → TlsConfig
clone_tls conf = record {
  certs_dir = conf.certs_dir;
  cert_file = conf.cert_file;
  key_file = conf.key_file;
  want_cli_auth = conf.want_cli_auth;
  min_tls_version = conf.min_tls_version;
  cipher_suites = conf.cipher_suites;
}

-- Config.Validate: whether the port is not one.
unfoldable pub invalid_port : ServingConfig → Bool
invalid_port conf = not (lt64 0 conf.port)

-- Config.BindAddress
unfoldable pub bind_address : ServingConfig → Text
bind_address conf = conf.ip ++ b':' ∷ format_int conf.port

-- strings.Join(parts, ",")
unfoldable pub join_commas : List Text → Text
join_commas [] = []
join_commas (part ∷ []) = part
join_commas (part ∷ next ∷ parts) = part ++ b',' ∷ join_commas (next ∷ parts)

-- ServingModeSupported
unfoldable pub serving_mode_supported : Text
unfolding join_commas
serving_mode_supported = join_commas (serving_disabled ∷ serving_http ∷ serving_http_tls ∷ [])

-- PortFromEnv, over os.LookupEnv
unfoldable pub port_from_env : (Text → Option Text) → Int64
port_from_env lookup = elim (lookup (codes "METRICS_PORT")) [
  | none ↦ 0
  | some value ↦ elim (parse_int value).error [ some e ↦ 0 | none ↦ (parse_int value).value ]
]

-- AddressFromEnv
unfoldable pub address_from_env : (Text → Option Text) → Text
address_from_env lookup = elim (lookup (codes "METRICS_ADDRESS")) [ none ↦ [] | some ip ↦ ip ]

pub data ClientAuth : Type 0 where
  no_client_cert : ClientAuth
  require_and_verify : ClientAuth

-- What the code sets of tls.Config; a nil list of ciphers is none.
pub record CryptoConfig : Type 0 where
  pub min_version : ℕ
  pub max_version : ℕ
  pub ciphers : Option (List ℕ)
  pub next_protos : List Text
  pub client_auth : ClientAuth

abbrev pub TlsOpt : Type 0
TlsOpt = CryptoConfig → CryptoConfig

-- tls.VersionTLS13
abbrev pub version_tls13 : ℕ
version_tls13 = 772

-- cliflag.TLSVersion and cliflag.TLSCipherSuites, which may give a nil list, none
pub record TlsNames (E : Type 0) : Type 0 where
  pub tls_version : Text → Result E ℕ
  pub tls_cipher_suites : List Text → Result E (Option (List ℕ))

unfoldable pub trimmed : Text → List Text → List Text
trimmed [] rest = rest
trimmed (c ∷ p) rest = (c ∷ p) ∷ rest

unfoldable pub non_empty_parts : List Text → List Text
unfolding trimmed
non_empty_parts [] = []
non_empty_parts (p ∷ parts) = trimmed (trim is_space p) (non_empty_parts parts)

-- splitNonEmptyCSV
unfoldable pub split_non_empty_csv : Text → List Text
unfolding non_empty_parts
split_non_empty_csv s = non_empty_parts (split b',' s)

-- tls13PolicyOpt
unfoldable pub tls13_policy_opt : TlsOpt
tls13_policy_opt cfg = record cfg {
  min_version = version_tls13;
  max_version = version_tls13;
  ciphers = none;
}

-- tls12AndEarlierPolicyOpt
unfoldable pub tls12_and_earlier_policy_opt : ℕ → Option (List ℕ) → TlsOpt
tls12_and_earlier_policy_opt version ids cfg = record cfg { min_version = version; ciphers = ids }

-- withHTTP11
unfoldable pub with_http11 : TlsOpt
with_http11 cfg = record cfg { next_protos = codes "http/1.1" ∷ [] }

-- WithClientAuth
unfoldable pub with_client_auth : Bool → TlsOpt
with_client_auth false cfg = record cfg { client_auth = no_client_cert }
with_client_auth true cfg = record cfg { client_auth = require_and_verify }

module _ {E : Type 0} (names : TlsNames E) where
  abbrev policy_of : ℕ → Option (List ℕ) → List TlsOpt
  policy_of version ids =
      if nat_beq version version_tls13
      then tls13_policy_opt ∷ []
      else tls12_and_earlier_policy_opt version ids ∷ []

  unfoldable pub named_policy : Text → List Text → Result E (List TlsOpt)
  named_policy name ciphers = elim (names.tls_version name) [
    | failed e ↦ failed e
    | ok version ↦ elim (names.tls_cipher_suites ciphers) [
      | failed e ↦ failed e
      | ok ids ↦ ok (policy_of version ids)
    ]
  ]

  unfoldable pub policy_for : Text → List Text → Result E (List TlsOpt)
  unfolding named_policy
  policy_for [] [] = ok []
  policy_for name ciphers = named_policy name ciphers

  -- metricsTLSPolicyOpts
  unfoldable pub metrics_tls_policy_opts : Text → Text → Result E (List TlsOpt)
  unfolding policy_for
  metrics_tls_policy_opts version csv = policy_for (trim is_space version) (split_non_empty_csv csv)

  -- buildSecureMetricsTLSOpts
  unfoldable pub build_secure_metrics_tls_opts : TlsConfig → Result E (List TlsOpt)
  unfolding metrics_tls_policy_opts
  build_secure_metrics_tls_opts conf =
      elim (metrics_tls_policy_opts conf.min_tls_version conf.cipher_suites) [
        | failed e ↦ failed e
        | ok opts ↦ ok (with_http11 ∷ (opts ++ with_client_auth conf.want_cli_auth ∷ []))
      ]

-- ctrlmetricssrv.Options
pub record Options : Type 0 where
  pub secure_serving : Bool
  pub address : Text
  pub cert_dir : Text
  pub cert_name : Text
  pub key_name : Text
  pub tls_opts : List TlsOpt

-- How Setup ends: with no server, with an error, or with a server that is started.
pub data SetupResult (E : Type 0) : Type 0 where
  not_served : SetupResult E
  bad_port : Int64 → SetupResult E
  unknown_mode : Text → SetupResult E
  bad_policy : E → SetupResult E
  not_built : E → SetupResult E
  started : Options → SetupResult E

module _ {E : Type 0} (names : TlsNames E) (new_server : Options → Option E) where
  abbrev pub options : ServingConfig → Bool → List TlsOpt → Options
  options conf secure opts = record {
    secure_serving = secure;
    address = bind_address conf;
    cert_dir = conf.tls.certs_dir;
    cert_name = conf.tls.cert_file;
    key_name = conf.tls.key_file;
    tls_opts = opts;
  }

  unfoldable pub build : Options → SetupResult E
  build opts = elim (new_server opts) [ some e ↦ not_built e | none ↦ started opts ]

  unfoldable pub build_secure : ServingConfig → SetupResult E
  unfolding build
  build_secure conf = elim (build_secure_metrics_tls_opts names conf.tls) [
    | failed e ↦ bad_policy e
    | ok opts ↦ build (options conf true opts)
  ]

  -- Setup
  unfoldable pub setup : Text → ServingConfig → SetupResult E
  unfolding build build_secure
  setup mode conf =
      if text_beq mode serving_disabled
      then not_served
      else if invalid_port conf
      then bad_port conf.port
      else if text_beq mode serving_http
      then build (options conf false [])
      else if text_beq mode serving_http_tls
      then build_secure conf
      else unknown_mode mode
