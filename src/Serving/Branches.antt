-- ===== src/Serving/Branches.antt =====
-- Setup of pkg/metrics/server: when it starts a server, and how it ends otherwise.
use resource_topology_export.Base.{◌≡◌, ◌≢◌, true, false, Option, none, some, [], Text}
use resource_topology_export.Base.Int.{IsPositive}
use resource_topology_export.Base.Strings.{is_space, trim}
use resource_topology_export.Serving.{
  ServingConfig, CryptoConfig, TlsNames, Options, SetupResult, not_served, bad_port, unknown_mode,
  bad_policy, not_built, started, bind_address, serving_disabled, serving_http, serving_http_tls,
  split_non_empty_csv,
}
use resource_topology_export.Serving.Secured.{IsSecured, Unpoliceable, apply_opts}

-- The options that the server is built with: plain for http, and for httptls with all that secures
-- any TLS configuration.
pub data Chosen {E : Type 0} (names : TlsNames E) (mode : Text) (conf : ServingConfig)
    (opts : Options) : Type 0 where
  plain :
      mode ≡ serving_http
      → opts.secure_serving ≡ false
      → opts.tls_opts ≡ []
      → Chosen names mode conf opts
  secured :
      mode ≡ serving_http_tls
      → opts.secure_serving ≡ true
      → ((cfg : CryptoConfig) → IsSecured names conf.tls cfg (apply_opts opts.tls_opts cfg))
      → Chosen names mode conf opts

-- How Setup ends, by its mode and configuration.
pub data Outcome {E : Type 0} (names : TlsNames E) (new_server : Options → Option E) (mode : Text)
    (conf : ServingConfig) : SetupResult E → Type 0 where
  disabled : mode ≡ serving_disabled → Outcome names new_server mode conf not_served
  refused_port :
      mode ≢ serving_disabled
      → ¬ IsPositive conf.port
      → Outcome names new_server mode conf (bad_port conf.port)
  refused_mode :
      mode ≢ serving_disabled
      → IsPositive conf.port
      → mode ≢ serving_http
      → mode ≢ serving_http_tls
      → Outcome names new_server mode conf (unknown_mode mode)
  refused_policy :
      (e : E)
      → mode ≡ serving_http_tls
      → IsPositive conf.port
      → Unpoliceable names
          (trim is_space conf.tls.min_tls_version)
          (split_non_empty_csv conf.tls.cipher_suites)
          e
      → Outcome names new_server mode conf (bad_policy e)
  refused_options :
      (e : E) (opts : Options)
      → IsPositive conf.port
      → opts.address ≡ bind_address conf
      → Chosen names mode conf opts
      → new_server opts ≡ some e
      → Outcome names new_server mode conf (not_built e)
  serves :
      (opts : Options)
      → IsPositive conf.port
      → opts.address ≡ bind_address conf
      → Chosen names mode conf opts
      → new_server opts ≡ none
      → Outcome names new_server mode conf (started opts)
