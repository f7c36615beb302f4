-- ===== src/Exporter/Settings.antt =====
-- getTopologyManagerSettings and createEventSource of pkg/resourcetopologyexporter.
use resource_topology_export.Base.{Bool, true, false, ◌&&◌, [], ◌∷◌, Text, if◌then◌else◌}
use resource_topology_export.Updater.Object.{TmConfig}

-- The arguments that the settings are read from.
pub record TmArgs : Type 0 where
  pub topology_manager_policy : Text
  pub topology_manager_scope : Text
  pub kubelet_config_file : Text

pub data Settings (E : Type 0) : Type 0 where
  settings : TmConfig → Settings E
  config_error : E → Settings E
  no_policy : Settings E

abbrev pub is_set : Text → Bool
is_set [] = false
is_set (c ∷ s) = true

-- What reading the kubelet's configuration file gives.
pub data Kubelet (E : Type 0) : Type 0 where
  kubelet : TmConfig → Kubelet E
  unreadable : E → Kubelet E

abbrev pub from_kubelet : {E : Type 0} → Kubelet E → Settings E
from_kubelet (kubelet conf) = settings conf
from_kubelet (unreadable e) = config_error e

-- getTopologyManagerSettings, over kubeconf.GetKubeletConfigFromLocalFile
unfoldable pub get_topology_manager_settings :
    {E : Type 0} → (Text → Kubelet E) → TmArgs → Settings E
get_topology_manager_settings read args =
    if is_set args.topology_manager_policy && is_set args.topology_manager_scope
    then settings
        (record { policy = args.topology_manager_policy; scope = args.topology_manager_scope })
    else if is_set args.kubelet_config_file
    then from_kubelet (read args.kubelet_config_file)
    else no_policy
