-- ===== src/Examples/Server.antt =====
-- The metrics server and the labels of the metrics, at concrete inputs.
use resource_topology_export.Base.{ℕ, ◌≡◌, refl, true, Option, none, some, arith, List, [], ◌∷◌, ok}
use resource_topology_export.Base.Strings.{codes, is_space, format_int}
use resource_topology_export.Config.{Environment, default_tls_config, from_env}
use resource_topology_export.Config.Flags.{CommandLine, flagged}
use resource_topology_export.Config.Loading.{finalize, zero_args}
use resource_topology_export.Labelling.{setup_labels}
use resource_topology_export.Labelling.Names.{Beside, setup_labels-Beside}
use resource_topology_export.Serving.{
  ServingConfig, TlsNames, Options, new_default_config, join_commas, split_non_empty_csv,
  serving_mode_supported, bind_address,
}
use resource_topology_export.Serving.Names.{
  Padded, padded_text, name_of, texts_of, split_non_empty_csv-join_commas,
}

-- Every version is TLS 1.3, and there is one cipher.
abbrev names : TlsNames ℕ
names = record { tls_version = λ name. ok 772; tls_cipher_suites = λ names. ok (some (4865 ∷ [])) }

abbrev conf : ServingConfig
conf = record {
  ip = codes "127.0.0.1";
  port = 2112;
  tls = record default_tls_config { min_tls_version = codes "VersionTLS13"; want_cli_auth = true };
}

abbrev no_refusal : Options → Option ℕ
no_refusal opts = none

abbrev two_names : List Padded
two_names =
    record { before = []; first = 65; others = codes "ES"; after = codes " " }
    ∷ record { before = codes " "; first = 66; others = []; after = [] }
    ∷ []

split_non_empty_csv-join_commas_example :
    split_non_empty_csv (join_commas (texts_of padded_text two_names)) ≡ texts_of name_of two_names
unfolding is_space
split_non_empty_csv-join_commas_example = split_non_empty_csv-join_commas two_names (ground arith)

default_address : bind_address new_default_config ≡ codes "0.0.0.0:2112"
unfolding bind_address format_int
default_address = refl

modes_text : serving_mode_supported ≡ codes "disabled,http,httptls"
unfolding serving_mode_supported
modes_text = refl

abbrev no_flags : CommandLine ℕ
no_flags = record {
  text_flag = λ name. none;
  bool_flag = λ name. none;
  int_flag = λ name. none;
  params = [];
  err = none;
}

-- NODE_NAME is set, and empty.
abbrev nothing_set : Environment
nothing_set = record {
  hostname = [];
  topology_manager_policy = [];
  topology_manager_scope = [];
  reference_container = none;
  metrics_port = 0;
  metrics_address = [];
  pod_set_fingerprint_status_file = [];
}

setup_labels-Beside_example :
    Beside
      (some [])
      (ok (codes "host"))
      []
      (setup_labels {E = ℕ} [] (some []) (ok (codes "host")) [])
      (finalize {E = ℕ}
        (ok (codes "host"))
        []
        (flagged no_flags (from_env nothing_set zero_args))).0.args.nrt_updater.hostname
setup_labels-Beside_example =
    setup_labels-Beside {E = ℕ} (some []) (ok (codes "host")) [] nothing_set no_flags [] zero_args
      refl refl refl
