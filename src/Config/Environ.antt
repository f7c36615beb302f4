-- ===== src/Config/Environ.antt =====
-- pkg/config/environ.go: what the environment variables give to FromEnv.
use resource_topology_export.Base.{◌≡◌, refl, Option, none, some, [], Text, text_beq, if◌then◌else◌}
use resource_topology_export.Base.Strings.{codes, parse_int}
use resource_topology_export.Labelling.{host_name_from_env}
use resource_topology_export.Middleware.SharedPool.Ident
use resource_topology_export.Middleware.SharedPool.Ident.{is_empty}
use resource_topology_export.Config.{Environment}
use resource_topology_export.Serving.{port_from_env, address_from_env}

-- os.Getenv, of what os.LookupEnv gives
abbrev or_empty : Option Text → Text
or_empty (some value) = value
or_empty none = []

module _ (lookup : Text → Option Text) where
  -- TopologyManagerPolicyFromEnv
  unfoldable pub topology_manager_policy_from_env : Text
  topology_manager_policy_from_env = elim (lookup (codes "TOPOLOGY_MANAGER_POLICY")) [
    | none ↦ []
    | some value ↦ value
  ]

  -- TopologyManagerScopeFromEnv
  unfoldable pub topology_manager_scope_from_env : Text
  topology_manager_scope_from_env = elim (lookup (codes "TOPOLOGY_MANAGER_SCOPE")) [
    | none ↦ []
    | some value ↦ value
  ]

  -- PodSetFingerprintStatusFileFromEnv
  unfoldable pub pod_set_fingerprint_status_file_from_env : Text
  pod_set_fingerprint_status_file_from_env = elim (lookup (codes "PFP_STATUS_FILE")) [
    | none ↦ []
    | some value ↦ value
  ]

  -- All that FromEnv asks for, over os.LookupEnv.
  unfoldable pub environment : Environment
  unfolding topology_manager_policy_from_env topology_manager_scope_from_env
      pod_set_fingerprint_status_file_from_env
  environment = record {
    hostname = host_name_from_env (lookup (codes "NODE_NAME"));
    topology_manager_policy = topology_manager_policy_from_env;
    topology_manager_scope = topology_manager_scope_from_env;
    reference_container =
        Ident.from_env (or_empty (lookup (codes "REFERENCE_NAMESPACE")))
          (or_empty (lookup (codes "REFERENCE_POD_NAME")))
          (or_empty (lookup (codes "REFERENCE_CONTAINER_NAME")));
    metrics_port = port_from_env lookup;
    metrics_address = address_from_env lookup;
    pod_set_fingerprint_status_file = pod_set_fingerprint_status_file_from_env;
  }

-- Only the name of the node and the port are set.
abbrev two_set : Text → Option Text
two_set name =
    if text_beq name (codes "NODE_NAME")
    then some (codes "n1")
    else if text_beq name (codes "METRICS_PORT")
    then some (codes "9100")
    else none

environment_of_two : environment two_set ≡ record {
  hostname = codes "n1";
  topology_manager_policy = [];
  topology_manager_scope = [];
  reference_container = none;
  metrics_port = 9100;
  metrics_address = [];
  pod_set_fingerprint_status_file = [];
}
unfolding environment port_from_env address_from_env Ident.from_env is_empty text_beq parse_int
environment_of_two = refl
