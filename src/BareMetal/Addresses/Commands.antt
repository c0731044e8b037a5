-- ===== src/BareMetal/Addresses/Commands.antt =====
-- The commands on a machine address that machine.
use cluster_api_provider_hcl.Base.{Text, ℕ, zero, suc, Option, none, some, List}
use cluster_api_provider_hcl.Exec.{wrapped, Error, Reply, success, refusal, ◌>>◌}
use cluster_api_provider_hcl.Server.Kubeadm.{UserData}
use cluster_api_provider_hcl.BareMetal.{get_raw_bootstrap_data, RobotServer, BlockDevice, RobotEnv}
use cluster_api_provider_hcl.BareMetal.Ssh.{
  SshSecret, connect, run_session, with_connection, run_ssh, run_command, retrieve_ssh_secret,
  get_ssh_fingerprint_from_name,
}
use cluster_api_provider_hcl.BareMetal.Provision.{
  or_fail, put_on_drive, put_image, with_fingerprint, with_secret, ssh_secret, ssh_fingerprint,
  start_rescue, checked, checked_or_wipe, reboot, choose_drive, install, cloud_init_config, seed,
  claim, machine_name, provision_machine,
}
use cluster_api_provider_hcl.BareMetal.Addresses.{
  Addresses, Allowed, addresses_rules, Addresses-bind, Addresses-pure, Addresses-fail,
  Addresses-wrapping,
}

pub or_fail-Addresses :
    {Q : Text → Type 0} {A : Type 0} (m : Text) (r : Reply A) → Addresses Q (or_fail m r)
or_fail-Addresses m (success a) = Addresses-pure a
or_fail-Addresses m (refusal e) = Addresses-fail (wrapped m e)

module _ {Q : Text → Type 0} (env : RobotEnv) (ip : Text) (own : Q ip) where
  machine_name-Addresses : Addresses Q machine_name
  unfolding machine_name
  machine_name-Addresses = search addresses_rules depth 30

  connect-Addresses : (n : ℕ) (last : Option Error) → Addresses Q (connect env ip n last)
  unfolding connect Allowed
  connect-Addresses zero last = search addresses_rules depth 30
  connect-Addresses (suc n) last = search (addresses_rules, own, connect-Addresses n) depth 30

  run_command-Addresses : (command : Text) → Addresses Q (run_command env ip command)
  unfolding Allowed
  run_command-Addresses command = record { at = λ s h. (own, h) }

  run_session-Addresses : (command : Text) → Addresses Q (run_session env command ip)
  unfolding run_session Allowed
  run_session-Addresses command = search (addresses_rules, own, run_command-Addresses) depth 30

  with_connection-Addresses :
      (command : Text) (o : Option Error) → Addresses Q (with_connection env command ip o)
  unfolding with_connection
  with_connection-Addresses command none = run_session-Addresses command
  with_connection-Addresses command (some e) = Addresses-pure _

  run_ssh-Addresses :
      (command private_key : Text) → Addresses Q (run_ssh env command ip private_key)
  unfolding run_ssh
  run_ssh-Addresses command private_key =
      search (addresses_rules, connect-Addresses, with_connection-Addresses) depth 30

  checked-Addresses :
      (private_key message command : Text)
      → Addresses Q (checked env ip private_key message command)
  unfolding checked
  checked-Addresses private_key message command =
      search (addresses_rules, run_ssh-Addresses) depth 30

  checked_or_wipe-Addresses :
      (private_key drive message command : Text)
      → Addresses Q (checked_or_wipe env ip private_key drive message command)
  unfolding checked_or_wipe
  checked_or_wipe-Addresses private_key drive message command =
      search (addresses_rules, run_ssh-Addresses) depth 30

  reboot-Addresses : (private_key : Text) → Addresses Q (reboot env ip private_key)
  unfolding reboot
  reboot-Addresses private_key = search (addresses_rules, run_ssh-Addresses) depth 30

  choose_drive-Addresses : (private_key : Text) → Addresses Q (choose_drive env ip private_key)
  unfolding choose_drive
  choose_drive-Addresses private_key =
      search (addresses_rules, or_fail-Addresses, checked-Addresses) depth 30

  install-Addresses :
      (private_key drive : Text) (devices : List BlockDevice)
      → Addresses Q (install env ip private_key drive devices)
  unfolding install
  install-Addresses private_key drive devices =
      search
        (
          addresses_rules, or_fail-Addresses, checked-Addresses, checked_or_wipe-Addresses,
          machine_name-Addresses,
        )
        depth 30

  seed-Addresses : (private_key config : Text) → Addresses Q (seed env ip private_key config)
  unfolding seed
  seed-Addresses private_key config =
      search (addresses_rules, checked-Addresses, reboot-Addresses) depth 30

  start_rescue-Addresses : (fingerprint : Text) → Addresses Q (start_rescue env ip fingerprint)
  unfolding start_rescue Allowed
  start_rescue-Addresses fingerprint = search (addresses_rules, or_fail-Addresses, own) depth 30

  claim-Addresses : Addresses Q (claim env ip)
  unfolding claim Allowed
  claim-Addresses =
      search (addresses_rules, or_fail-Addresses, own, machine_name-Addresses) depth 30

module _ {Q : Text → Type 0} (env : RobotEnv) where
  retrieve_ssh_secret-Addresses : Addresses Q (retrieve_ssh_secret env)
  unfolding retrieve_ssh_secret Allowed
  retrieve_ssh_secret-Addresses = search addresses_rules depth 30

  get_ssh_fingerprint_from_name-Addresses :
      (name : Text) → Addresses Q (get_ssh_fingerprint_from_name env name)
  unfolding get_ssh_fingerprint_from_name Allowed
  get_ssh_fingerprint_from_name-Addresses name = search addresses_rules depth 30

  ssh_secret-Addresses : Addresses Q (ssh_secret env)
  unfolding ssh_secret
  ssh_secret-Addresses =
      Addresses-wrapping _ (retrieve_ssh_secret env) retrieve_ssh_secret-Addresses

  ssh_fingerprint-Addresses : (name : Text) → Addresses Q (ssh_fingerprint env name)
  unfolding ssh_fingerprint
  ssh_fingerprint-Addresses name =
      Addresses-wrapping _ (get_ssh_fingerprint_from_name env name)
        (get_ssh_fingerprint_from_name-Addresses name)

  get_raw_bootstrap_data-Addresses : Addresses Q (get_raw_bootstrap_data env)
  unfolding get_raw_bootstrap_data Allowed
  get_raw_bootstrap_data-Addresses = search addresses_rules depth 30

  cloud_init_config-Addresses :
      {Doc : Type 0} (user_data_lib : UserData Doc)
      → Addresses Q (cloud_init_config env user_data_lib)
  unfolding cloud_init_config
  cloud_init_config-Addresses user_data_lib =
      search (addresses_rules, get_raw_bootstrap_data-Addresses) depth 30

  put_on_drive-Addresses :
      (ip private_key config : Text) (chosen : Text × List BlockDevice)
      → Q ip
      → Addresses Q (put_on_drive env ip private_key config chosen)
  unfolding put_on_drive
  put_on_drive-Addresses ip private_key config (drive, devices) own =
      Addresses-bind (install env ip private_key drive devices)
        (λ _. seed env ip private_key config >> claim env ip)
        (install-Addresses env ip own private_key drive devices)
        (λ _.
          Addresses-bind (seed env ip private_key config) (λ _. claim env ip)
            (seed-Addresses env ip own private_key config) (λ _. claim-Addresses env ip own))

  put_image-Addresses :
      (ip private_key config : Text) → Q ip → Addresses Q (put_image env ip private_key config)
  unfolding put_image
  put_image-Addresses ip private_key config own =
      Addresses-bind (choose_drive env ip private_key) (put_on_drive env ip private_key config)
        (choose_drive-Addresses env ip own private_key)
        (λ chosen. put_on_drive-Addresses ip private_key config chosen own)

  module _ {Doc : Type 0} (user_data_lib : UserData Doc) (server : RobotServer)
      (own : Q server.server_ip) where
    with_fingerprint-Addresses :
        (private_key fingerprint : Text)
        → Addresses Q (with_fingerprint env user_data_lib server private_key fingerprint)
    unfolding with_fingerprint
    with_fingerprint-Addresses private_key fingerprint =
        Addresses-bind (cloud_init_config env user_data_lib)
          (λ config.
            start_rescue env server.server_ip fingerprint
            >> put_image env server.server_ip private_key config)
          (cloud_init_config-Addresses user_data_lib)
          (λ config.
            Addresses-bind (start_rescue env server.server_ip fingerprint)
              (λ _. put_image env server.server_ip private_key config)
              (start_rescue-Addresses env server.server_ip own fingerprint)
              (λ _. put_image-Addresses server.server_ip private_key config own))

    with_secret-Addresses :
        (secret : SshSecret) → Addresses Q (with_secret env user_data_lib server secret)
    unfolding with_secret
    with_secret-Addresses secret =
        Addresses-bind (ssh_fingerprint env secret.ssh_key_name)
          (with_fingerprint env user_data_lib server secret.private_key)
          (ssh_fingerprint-Addresses secret.ssh_key_name)
          (with_fingerprint-Addresses secret.private_key)

    -- The provisioning addresses its machine only.
    pub provision_machine-Addresses : Addresses Q (provision_machine env user_data_lib server)
    unfolding provision_machine
    provision_machine-Addresses =
        Addresses-bind (ssh_secret env) (with_secret env user_data_lib server) ssh_secret-Addresses
          with_secret-Addresses
