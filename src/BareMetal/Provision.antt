-- ===== src/BareMetal/Provision.antt =====
-- `provisionMachine`: the image and the user data are put on a machine, and then its name is set.
use cluster_api_provider_hcl.Base.{
  Text, text, Option, none, some, List, [], ◌∷◌, ◌++◌, contains, if◌then◌else◌,
}
use cluster_api_provider_hcl.Exec.{
  failure, wrapped, Reply, success, refusal, Exec, pure, fail, gets, deref, of_result, wrapping,
  ◌>>=◌, ◌>>◌,
}
use cluster_api_provider_hcl.Server.Kubeadm.{
  KubeadmConfig, UserData, default_arg, cloud_provider_key,
}
use cluster_api_provider_hcl.BareMetal.{
  BlockDevice, RobotServer, RobotCall, RobotEnv, BareMetalScope, ask, eventf, on_option,
  error_contains, get_raw_bootstrap_data,
}
use cluster_api_provider_hcl.BareMetal.Names.{attached_name}
use cluster_api_provider_hcl.BareMetal.Devices.{find_correct_device, label_children_command}
use cluster_api_provider_hcl.BareMetal.Ssh.{
  SshSecret, run_ssh, retrieve_ssh_secret, get_ssh_fingerprint_from_name,
}

-- `if err := x; err != nil { return errors.Errorf(m, err) }`
abbrev pub or_fail : {A : Type 0} → Text → Reply A → Exec BareMetalScope A
or_fail m (success a) = pure a
or_fail m (refusal e) = fail (wrapped m e)

-- The kubelet of a joining node uses an external cloud provider, unless it says otherwise.
unfoldable configure_join : KubeadmConfig → KubeadmConfig
unfolding default_arg
configure_join config = elim (config.join_configuration) [
  | none ↦ config
  | some j ↦ record config {
    join_configuration = some (record j {
      kubelet_extra_args = default_arg cloud_provider_key (text "external") j.kubelet_extra_args;
    });
  }
]

-- The user data of the machine.
unfoldable pub cloud_init_config :
    {Doc : Type 0} → RobotEnv → UserData Doc → Exec BareMetalScope Text
unfolding get_raw_bootstrap_data configure_join
cloud_init_config env user_data_lib = do
  initial ← get_raw_bootstrap_data env
  doc ← of_result (user_data_lib.new_from_reader initial)
  config ← of_result (user_data_lib.get_kubeadm_config doc)
  written ← of_result (user_data_lib.set_kubeadm_config doc (configure_join config))
  wrapping (text "Error while writing yaml file") (of_result (user_data_lib.write_yaml written))

abbrev pub block_device_command : Text
block_device_command = text "lsblk -o name,size,rota,fstype,label -e1 -e7 --json"

abbrev line : Text → Text → Text
line a rest = a ++ (10 ∷ rest)

abbrev default_partition : Text
default_partition = line (text "PART /boot ext3 512M") (text "PART / ext4 all")

abbrev partition_of : Option Text → Text
partition_of none = default_partition
partition_of (some p) = p

unfoldable auto_setup : Text → Text → Text → Text → Text
auto_setup drive host_name partition image_path = line (text "cat > /autosetup << EOF") (
    line (text "DRIVE1 /dev/" ++ drive) (
      line (text "BOOTLOADER grub") (
        line (text "HOSTNAME " ++ host_name)
          (line partition (line (text "IMAGE " ++ image_path) (text "EOF"))))))

unfoldable cloud_init_command : Text → Text
cloud_init_command config =
    line (text "cat > /var/lib/cloud/seed/nocloud/user-data << EOF") (line config (text "EOF"))

-- The name that the machine gets, and its host name.
unfoldable pub machine_name : Exec BareMetalScope Text
unfolding attached_name
machine_name = do
  server_type ← gets (λ s. s.machine.spec.server_type)
  t ← deref server_type
  gets (λ s. attached_name s.cluster_name t s.machine.name)

module _ (env : RobotEnv) (ip : Text) (private_key : Text) where
  -- A command whose failure ends the provisioning.
  unfoldable pub checked : Text → Text → Exec BareMetalScope Text
  unfolding run_ssh
  checked message command = do
    output ← run_ssh env command ip private_key
    on_option output.error (pure output.stdout) (λ e. fail (wrapped message e))

  -- A command after whose failure the device is wiped.
  unfoldable pub checked_or_wipe : Text → Text → Text → Exec BareMetalScope Text
  unfolding run_ssh
  checked_or_wipe drive message command = do
    output ← run_ssh env command ip private_key
    on_option output.error (pure output.stdout) (λ e. (do
      run_ssh env (text "wipefs -a /dev/" ++ drive) ip private_key
      fail (wrapped message e)))

  -- A reboot closes the connection, which is no failure.
  unfoldable pub reboot : Exec BareMetalScope (Unit {0})
  unfolding run_ssh error_contains
  reboot = do
    output ← run_ssh env (text "reboot") ip private_key
    on_option output.error (pure tt) (λ e.
        if error_contains (text "exited without exit status or exit signal") e
        then pure tt
        else fail (wrapped (text "Error running the ssh command reboot: Error: %s, stderr: %s") e))

  abbrev pub ssh_failed : Text
  ssh_failed = text "Error running the ssh command %s: Error: %s, stderr: %s"

  -- From the rescue system to the choice of the device.
  unfoldable pub choose_drive : Exec BareMetalScope (Text × List BlockDevice)
  unfolding checked find_correct_device
  choose_drive = do
    host_name ←
        checked (text "SSH command hostname returned the error %s. The output of stderr is %s")
          (text "hostname")
    if contains host_name (text "rescue")
        then (do
          stdout ← checked ssh_failed block_device_command
          devices ← or_fail (text "Error while unmarshaling: %s") (env.unmarshal [] stdout)
          drive ←
              wrapping (text "Error while finding correct device: %s")
                (of_result (find_correct_device env devices))
          pure (drive, devices))
        else fail (
            failure
              (text "Rescue system not successfully started. Output of command hostname is %s"))

  -- The image is installed on the device, and its partitions are labelled.
  unfoldable pub install : Text → List BlockDevice → Exec BareMetalScope (Unit {0})
  unfolding checked checked_or_wipe machine_name auto_setup label_children_command
  install drive devices = do
    host_name ← machine_name
    spec ← gets (λ s. s.machine.spec)
    image_path ← deref spec.image_path
    let partition = partition_of spec.partition
    checked (text "SSH command autosetup returned the error %s. The output of stderr is %s")
        (auto_setup drive host_name partition image_path)
    checked_or_wipe drive
        (text "SSH command installimage returned the error %s. The output of stderr is %s")
        (text "bash /root/.oldroot/nfs/install/installimage")
    stdout ← checked_or_wipe drive ssh_failed block_device_command
    installed ← or_fail (text "Error while unmarshaling: %s") (env.unmarshal devices stdout)
    command ←
        wrapping (text "Error while constructing labeling children command of device %s: %s")
          (of_result (label_children_command installed drive))
    checked_or_wipe drive ssh_failed command
    pure tt

  -- The user data is put where cloud-init looks for it at the next start.
  unfoldable pub seed : Text → Exec BareMetalScope (Unit {0})
  unfolding checked reboot cloud_init_command
  seed config = do
    checked (text "Error running the ssh command sleep 30: Error: %s, stderr: %s") (text "sleep 30")
    reboot
    checked
        (text "Connection to server after reboot could not be established. Error: %s, stderr: %s")
        (text "sleep 60")
    checked ssh_failed (text "mkdir -p /var/lib/cloud/seed/nocloud")
    checked ssh_failed
        (text "echo 'instance-id: iid-system-uuid' >> /var/lib/cloud/seed/nocloud/meta-data")
    checked ssh_failed (cloud_init_command config)
    checked
        (text "Connection to server after reboot could not be established. Error: %s, stderr: %s")
        (text "sleep 30")
    reboot

-- The last step: the name, in place of labels.
unfoldable pub claim : RobotEnv → Text → Exec BareMetalScope (Unit {0})
unfolding machine_name
claim env ip = do
  name ← machine_name
  reply ← ask (RobotCall.set_bm_server_name ip name) (λ h. env.set_bm_server_name h ip name)
  or_fail (text "Unable to change bare metal server name: ") reply
  eventf (text "CreateBareMetalMachine")

-- The keys of the machine, and the fingerprint under which Robot knows them.
unfoldable pub ssh_secret : RobotEnv → Exec BareMetalScope SshSecret
unfolding retrieve_ssh_secret
ssh_secret env = wrapping (text "Unable to retrieve SSH secret: ") (retrieve_ssh_secret env)

unfoldable pub ssh_fingerprint : RobotEnv → Text → Exec BareMetalScope Text
unfolding get_ssh_fingerprint_from_name
ssh_fingerprint env name =
    wrapping (text "Unable to get SSH fingerprint for the SSH key %s: %s ")
      (get_ssh_fingerprint_from_name env name)

-- The machine starts its rescue system; the error of the reset is overwritten.
unfoldable pub start_rescue : RobotEnv → Text → Text → Exec BareMetalScope (Unit {0})
start_rescue env ip fingerprint = do
  rescue ←
      ask (RobotCall.activate_rescue ip fingerprint) (λ h. env.activate_rescue h ip fingerprint)
  or_fail (text "Unable to activate rescue system: ") rescue
  ask (RobotCall.reset_bm_server ip) (λ h. env.reset_bm_server h ip)
  pure tt

-- From the choice of the drive on.
unfoldable pub put_on_drive :
    RobotEnv → Text → Text → Text → Text × List BlockDevice → Exec BareMetalScope (Unit {0})
put_on_drive env ip private_key config (drive, devices) = do
  install env ip private_key drive devices
  seed env ip private_key config
  claim env ip

-- From the rescue system on.
unfoldable pub put_image : RobotEnv → Text → Text → Text → Exec BareMetalScope (Unit {0})
put_image env ip private_key config =
    choose_drive env ip private_key >>= put_on_drive env ip private_key config

module _ {Doc : Type 0} (env : RobotEnv) (user_data_lib : UserData Doc) (server : RobotServer) where
  -- The part of `provisionMachine` with the fingerprint.
  unfoldable pub with_fingerprint : Text → Text → Exec BareMetalScope (Unit {0})
  with_fingerprint private_key fingerprint = do
    config ← cloud_init_config env user_data_lib
    start_rescue env server.server_ip fingerprint
    put_image env server.server_ip private_key config

  -- The part of `provisionMachine` with the secret.
  unfoldable pub with_secret : SshSecret → Exec BareMetalScope (Unit {0})
  with_secret secret =
      ssh_fingerprint env secret.ssh_key_name >>= with_fingerprint secret.private_key

  unfoldable pub provision_machine : Exec BareMetalScope (Unit {0})
  provision_machine = ssh_secret env >>= with_secret
