-- ===== src/BareMetal/Tests.antt =====
-- Runs of the service on concrete machines.
use cluster_api_provider_hcl.Base.{
  Text, text, ◌+◌, ◌≤◌, Bool, true, false, none, some, List, [], ◌∷◌, All, Any, str_eq, has_prefix,
  ◌≡◌, refl,
}
use cluster_api_provider_hcl.Exec.{not_found, ok, err, success, refusal}
use cluster_api_provider_hcl.Server.Kubeadm.{UserData}
use cluster_api_provider_hcl.BareMetal.{
  RobotServer, RobotEnv, BlockDevice, BareMetalMachine, BareMetalScope,
}
use cluster_api_provider_hcl.BareMetal.Names.{attached_name, unused_name, is_part, is_closed_part}
use cluster_api_provider_hcl.BareMetal.Devices.{find_correct_device}
use cluster_api_provider_hcl.BareMetal.Selection.{
  matches, is_attached, is_free, find_attached_machine,
}
use cluster_api_provider_hcl.BareMetal.Ssh.{run_ssh}
use cluster_api_provider_hcl.BareMetal.Service.{reconcile, delete}
use cluster_api_provider_hcl.BareMetal.Ownership.{
  attached_name-matches, unused_name-matches, attached_to, attached_spec, find_attached_machine_lem,
}
use cluster_api_provider_hcl.BareMetal.Choice.{Installable, find_correct_device-safe}
use cluster_api_provider_hcl.BareMetal.Attempts.{dials, run_ssh-dials}
use cluster_api_provider_hcl.BareMetal.Addresses.{Allowed}
use cluster_api_provider_hcl.BareMetal.Addresses.Lists.{Listed}
use cluster_api_provider_hcl.BareMetal.Addresses.Machines.{reconcile-Allowed}
use cluster_api_provider_hcl.BareMetal.Addresses.Deletion.{delete-Allowed}

-- Cluster `c`, type `t`, machine `m`.
abbrev c_name : Text
c_name = 99 ∷ []

abbrev t_name : Text
t_name = 116 ∷ []

abbrev m_name : Text
m_name = 109 ∷ []

abbrev server_of : Text → RobotServer
server_of name = record {
  server_ip = 49 ∷ [];
  server_number = 7;
  server_name = name;
  status = text "ready";
  cancelled = false;
  paid_until = [];
}

abbrev robot : List RobotServer → RobotEnv
robot servers = record {
  list_bm_servers = λ h. success servers;
  list_bm_keys = λ h. success [];
  set_bm_server_name = λ h ip name. success tt;
  activate_rescue = λ h ip fingerprint. success tt;
  reset_bm_server = λ h ip. success tt;
  get_secret = λ h namespace name. success [];
  patch = λ h finalizers. success tt;
  dial = λ h ip. refusal not_found;
  new_session = λ h ip. success tt;
  run = λ h ip command. record { stdout = []; stderr = []; error = none };
  parse_date = λ t. refusal not_found;
  now = λ h. 0;
  unmarshal = λ before t. success [];
  parse_private_key = λ t. success tt;
  print_number = λ n. [];
  parse_scaled = λ t factor. success factor;
}

abbrev machine : BareMetalMachine
machine = record {
  name = m_name;
  namespace = [];
  finalizers = [];
  deletion_requested = false;
  spec = record {
    ssh_token_ref = record {
      public_key = [];
      private_key = [];
      ssh_key_name = [];
      token_name = [];
    };
    provider_id = none;
    partition = none;
    image_path = some [];
    server_type = some t_name;
  };
  status = record {
    ipv4 = [];
    ipv6 = [];
    server_id = 0;
    server_name = [];
    ready = false;
    server_state = [];
    cancelled = false;
    reset = false;
    rescue = false;
    failure_reason = none;
    failure_message = none;
  };
}

abbrev scope : BareMetalScope
scope = record {
  cluster_name = c_name;
  cluster_namespace = [];
  hrobot_token_ref = some [];
  data_secret_name = some [];
  machine = machine;
  trace = [];
}

abbrev library : UserData Text
library = record {
  new_from_reader = λ t. ok t;
  get_kubeadm_config = λ t. err not_found;
  set_kubeadm_config = λ t config. ok t;
  write_yaml = λ t. ok t;
}

attached_name-matches_example :
    (matches (robot []) 0 c_name (some t_name) (server_of (attached_name c_name t_name m_name))
      ≡ ok true)
    × ((name : Text)
        → is_attached name (server_of (attached_name c_name t_name m_name)) ≡ str_eq m_name name)
    × (is_free (server_of (attached_name c_name t_name m_name)) ≡ false)
attached_name-matches_example =
    attached_name-matches (robot []) 0 c_name t_name m_name
      (server_of (attached_name c_name t_name m_name)) (unfold is_closed_part in refl)
      (unfold is_closed_part in refl) (unfold is_part in refl) refl

unused_name-matches_example :
    (matches (robot []) 0 c_name (some t_name) (server_of (unused_name t_name m_name)) ≡ ok true)
    × (is_free (server_of (unused_name t_name m_name)) ≡ true)
    × ((name : Text) → is_attached name (server_of (unused_name t_name m_name)) ≡ false)
unused_name-matches_example =
    unused_name-matches (robot []) 0 c_name t_name m_name (server_of (unused_name t_name m_name))
      (unfold is_closed_part in refl) (unfold is_part in refl) refl refl

find_attached_machine_lem_example :
    (find_attached_machine (server_of (attached_name c_name t_name m_name) ∷ []) scope).0
    ≡ attached_spec (attached_to m_name (server_of (attached_name c_name t_name m_name) ∷ []))
find_attached_machine_lem_example =
    find_attached_machine_lem (server_of (attached_name c_name t_name m_name) ∷ []) scope

-- Two disks, one of which rotates.
abbrev disk : Text → Bool → BlockDevice
disk name rotation = record {
  name = name;
  size = text "1T";
  rotation = rotation;
  type = [];
  label = [];
  children = none;
}

abbrev disks : List BlockDevice
disks = disk (text "sda") true ∷ disk (text "sdb") false ∷ []

disks_choice : find_correct_device (robot []) disks ≡ ok (text "sdb")
unfolding find_correct_device text has_prefix
disks_choice = refl

-- With disks that rotate only, the empty name is returned without an error.
rotating_choice : find_correct_device (robot []) (disk (text "sda") true ∷ []) ≡ ok []
unfolding find_correct_device text has_prefix
rotating_choice = refl

find_correct_device-safe_example : Any (λ d. (d.name ≡ text "sdb") × Installable d) disks
find_correct_device-safe_example =
    find_correct_device-safe (robot []) disks (text "sdb") disks_choice (unfold text in λ e. cc)

run_ssh-dials_example :
    dials (run_ssh (robot []) (text "hostname") (49 ∷ []) [] scope).1.trace ≤ 6 + dials []
run_ssh-dials_example = run_ssh-dials (robot []) (text "hostname") (49 ∷ []) [] scope

reconcile-Allowed_example :
    All
      (Allowed (
        Listed is_free
          (robot (server_of (unused_name t_name m_name) ∷ []))
          0
          c_name
          (some t_name)
          (server_of (unused_name t_name m_name) ∷ [])))
      (reconcile (robot (server_of (unused_name t_name m_name) ∷ [])) library scope).1.trace
reconcile-Allowed_example =
    reconcile-Allowed (robot (server_of (unused_name t_name m_name) ∷ [])) library scope
      (server_of (unused_name t_name m_name) ∷ []) refl refl

abbrev own_servers : List RobotServer
own_servers = server_of (attached_name c_name t_name m_name) ∷ []

delete-Allowed_example :
    All
      (Allowed (Listed (is_attached m_name) (robot own_servers) 0 c_name (some t_name) own_servers))
      (delete (robot own_servers) scope).1.trace
delete-Allowed_example = delete-Allowed (robot own_servers) scope own_servers refl refl
