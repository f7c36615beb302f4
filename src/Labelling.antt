-- ===== src/Labelling.antt =====
-- Setup of pkg/metrics/metrics.go, which finds the name of the node for the labels of the metrics, and
-- HostNameFromEnv of pkg/config/environ.go.
pub mod Names
use resource_topology_export.Base.{Option, none, some, [], ◌∷◌, Text, Result, ok, failed}

-- The variable nodeName after the call, and the error of the call.
pub record Labelled (E : Type 0) : Type 0 where
  pub node_name : Text
  pub err : Option E

-- os.LookupEnv of NODE_NAME, and os.Hostname where it is not set.
abbrev pub looked_up : {E : Type 0} → Option Text → Result E Text → Result E Text
looked_up (some value) hostname = ok value
looked_up none hostname = hostname

abbrev pub label_name : {E : Type 0} → Text → Option Text → Result E Text → Result E Text
label_name [] variable hostname = looked_up variable hostname
label_name (c ∷ name) variable hostname = ok (c ∷ name)

abbrev pub labelled : {E : Type 0} → Text → Result E Text → Labelled E
labelled earlier (failed e) = record { node_name = earlier; err = some e }
labelled earlier (ok name) = record { node_name = name; err = none }

-- Setup, from the earlier nodeName, over the variable NODE_NAME and os.Hostname.
unfoldable pub setup_labels : {E : Type 0} → Text → Option Text → Result E Text → Text → Labelled E
setup_labels earlier variable hostname name = labelled earlier (label_name name variable hostname)

-- HostNameFromEnv
abbrev pub host_name_from_env : Option Text → Text
host_name_from_env (some value) = value
host_name_from_env none = []
