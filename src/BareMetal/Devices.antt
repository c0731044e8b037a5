-- ===== src/BareMetal/Devices.antt =====
-- The choice of the block device, and the command that labels its partitions.
use cluster_api_provider_hcl.Base.{
  Text, text, ℕ, suc, Bool, true, false, not, ◌&&◌, Option, none, some, is_some, List, [], ◌∷◌,
  ◌++◌, filter, length, str_eq, str_le, has_prefix, ◌==◌, ltb, if◌then◌else◌,
}
use cluster_api_provider_hcl.Exec.{
  failure, wrapped, Result, ok, err, panic, Reply, success, refusal, then_result,
}
use cluster_api_provider_hcl.BareMetal.{BlockDevice, BlockDeviceData, RobotEnv}

abbrev pub sd_prefix : Text
sd_prefix = text "sd"

abbrev pub os_label : Text
os_label = text "os"

unfoldable pub is_sd : BlockDevice → Bool
is_sd device = has_prefix device.name sd_prefix

unfoldable pub any_os : List BlockDeviceData → Bool
any_os [] = false
any_os (child ∷ children) = if str_eq child.label os_label then true else any_os children

-- Whether a child of the device has the label: the inner loop of `findCorrectDevice`.
unfoldable pub is_labelled : BlockDevice → Bool
unfolding is_sd any_os
is_labelled device = elim (device.children) [
  | none ↦ false
  | some children ↦ is_sd device && any_os children
]

unfoldable pub counts_as_used : BlockDevice → Bool
unfolding is_sd
counts_as_used device = is_some device.children && is_sd device

-- `numLabels`, `hasChildren` and `drive` after the first loop of `findCorrectDevice`.
pub record Scan : Type 0 where
  pub num_labels : ℕ
  pub has_children : ℕ
  pub drive : Text

unfoldable pub scan_devices : List BlockDevice → Scan → Scan
unfolding is_labelled counts_as_used
scan_devices [] s = s
scan_devices (device ∷ devices) s = scan_devices devices (record {
  num_labels = if is_labelled device then suc s.num_labels else s.num_labels;
  has_children = if counts_as_used device then suc s.has_children else s.has_children;
  drive = if is_labelled device then device.name else s.drive;
})

-- No children, the name of a disk, and no rotation.
unfoldable pub is_free_ssd : BlockDevice → Bool
unfolding is_sd
is_free_ssd device = (not (is_some device.children) && is_sd device) && not device.rotation

unfoldable has_suffix : Text → ℕ → Bool
has_suffix [] c = false
has_suffix (a ∷ []) c = a == c
has_suffix (a ∷ b ∷ s) c = has_suffix (b ∷ s) c

unfoldable drop_last : Text → Text
drop_last [] = []
drop_last (a ∷ []) = []
drop_last (a ∷ b ∷ s) = a ∷ drop_last (b ∷ s)

abbrev pub parse_failed : Reply ℕ → Result ℕ
parse_failed (success n) = ok n
parse_failed (refusal e) = err (wrapped (text "Error while converting string %s to integer: %s") e)

-- `convertSizeToInt`: the result of `strings.ReplaceAll` is dropped.
unfoldable pub convert_size_to_int : RobotEnv → Text → Result ℕ
unfolding has_suffix drop_last
convert_size_to_int env s =
    if has_suffix s 84
    then parse_failed (env.parse_scaled (drop_last s) 1_000_000)
    else if has_suffix s 71
    then parse_failed (env.parse_scaled (drop_last s) 1_000)
    else if has_suffix s 77
    then parse_failed (env.parse_scaled (drop_last s) 1)
    else err (failure (text "Unknown unit in size %s"))

-- `reducedBlockDevice`
pub record ReducedBlockDevice : Type 0 where
  pub name : Text
  pub size : ℕ

unfoldable pub reduce_devices : RobotEnv → List BlockDevice → Result (List ReducedBlockDevice)
unfolding convert_size_to_int
reduce_devices env [] = ok []
reduce_devices env (device ∷ devices) = elim (convert_size_to_int env device.size) [
  | ok size ↦
      then_result (reduce_devices env devices)
        λ more. ok (record { name = device.name; size = size } ∷ more)
  | err e ↦ err (failure (text "Could not convert size %s to integer"))
  | panic ↦ panic
]

-- `sort.SliceStable`, by insertion: equal elements stay in their order.
module _ (less : ReducedBlockDevice → ReducedBlockDevice → Bool) where
  unfoldable pub insert_stable :
      ReducedBlockDevice → List ReducedBlockDevice → List ReducedBlockDevice
  insert_stable d [] = d ∷ []
  insert_stable d (e ∷ es) =
      let rest = insert_stable d es in if less e d then e ∷ rest else d ∷ e ∷ es

  unfoldable pub sort_stable : List ReducedBlockDevice → List ReducedBlockDevice
  unfolding insert_stable
  sort_stable [] = []
  sort_stable (d ∷ ds) = insert_stable d (sort_stable ds)

abbrev pub by_size : ReducedBlockDevice → ReducedBlockDevice → Bool
by_size d e = ltb d.size e.size

-- `d.Name > e.Name`
abbrev pub by_name_down : ReducedBlockDevice → ReducedBlockDevice → Bool
by_name_down d e = not (str_le d.name e.name)

abbrev pub first_name : List ReducedBlockDevice → Result Text
first_name [] = panic
first_name (d ∷ ds) = ok d.name

-- The choice among the devices, sorted by size.
unfoldable pub smallest : List ReducedBlockDevice → Result Text
unfolding sort_stable
smallest (d ∷ e ∷ ds) =
    if ltb d.size e.size
    then ok d.name
    else first_name (sort_stable by_name_down (filter (λ f. f.size == d.size) (d ∷ e ∷ ds)))
smallest ds = panic

-- The choice among the free SSDs; with none, the loop over the disks that rotate fills a list that
-- nothing reads, and `drive` stays as it was.
unfoldable pub choose_ssd : RobotEnv → List BlockDevice → Text → Result Text
unfolding reduce_devices sort_stable smallest
choose_ssd env [] drive = ok drive
choose_ssd env (device ∷ []) drive = ok device.name
choose_ssd env (device ∷ other ∷ devices) drive =
    then_result (reduce_devices env (device ∷ other ∷ devices))
      λ reduced. smallest (sort_stable by_size reduced)

abbrev pub initial_scan : Scan
initial_scan = record { num_labels = 0; has_children = 0; drive = [] }

unfoldable pub find_correct_device : RobotEnv → List BlockDevice → Result Text
unfolding scan_devices is_free_ssd choose_ssd
find_correct_device env devices =
    let scan = scan_devices devices initial_scan in
    if ltb 1 scan.num_labels
    then err (failure (text "Found %v devices with the correct labels"))
    else if scan.num_labels == 0
    then (if scan.has_children == length devices
        then err (failure (text "No device is left for installing the operating system"))
        else choose_ssd env (filter is_free_ssd devices) scan.drive)
    else ok scan.drive

-- The device of the name that comes last.
unfoldable find_device : Text → List BlockDevice → Option BlockDevice → Option BlockDevice
find_device drive [] found = found
find_device drive (d ∷ ds) found =
    find_device drive ds (if str_eq drive d.name then some d else found)

-- The lines of the command.
unfoldable label_lines : List BlockDeviceData → Text
label_lines [] = []
label_lines (child ∷ children) =
    text "e2label /dev/" ++ (child.name ++ (text " os" ++ (10 ∷ label_lines children)))

-- `labelChildrenCommand`; with an empty list that is not nil the slice `[:len-1]` is out of range.
unfoldable pub label_children_command : List BlockDevice → Text → Result Text
unfolding find_device label_lines drop_last
label_children_command devices drive = elim (find_device drive devices none) [
  | none ↦ err (failure (text "no device with name %s found"))
  | some device ↦ elim (device.children) [
    | none ↦ err (
        failure
          (text "no children for device with name %s found, instalimage did not work properly"))
    | some children ↦ elim children [
      | [] ↦ panic
      | child ∷ more ↦ ok (drop_last (label_lines (child ∷ more)))
    ]
  ]
]
