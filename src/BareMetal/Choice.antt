-- ===== src/BareMetal/Choice.antt =====
-- The device that is chosen for the image.
use cluster_api_provider_hcl.Base.{
  Text, text, has_prefix, str_eq, str_eq_iff, ℕ, suc, Bool, true, false, ◌&&◌, Option, none, some,
  List, [], ◌∷◌, filter, length, Any, Any-map, Any-filter, ltb, ◌==◌, if◌then◌else◌, ◌≡◌, ◌≢◌, ◌⊎◌,
  inl, inr, refl, sym, ◌∙◌, arith, Bool-cases,
}
use cluster_api_provider_hcl.Exec.{Result, ok, err, panic}
use cluster_api_provider_hcl.Exec.Ensures.{then_result-ok}
use cluster_api_provider_hcl.BareMetal.{BlockDevice, BlockDeviceData, RobotEnv}
use cluster_api_provider_hcl.BareMetal.Devices.{
  is_sd, any_os, os_label, is_labelled, counts_as_used, Scan, scan_devices, initial_scan,
  is_free_ssd, convert_size_to_int, ReducedBlockDevice, reduce_devices, insert_stable, sort_stable,
  by_size, by_name_down, first_name, smallest, choose_ssd, find_correct_device,
}

and_true : (a b : Bool) → (a && b) ≡ true → (a ≡ true) × (b ≡ true)
and_true true b h = (refl, h)
and_true false b h = absurd (cc)

abbrev Named : Text → ReducedBlockDevice → Type 0
Named drive d = d.name ≡ drive

insert_stable-Any :
    (less : ReducedBlockDevice → ReducedBlockDevice → Bool) (P : ReducedBlockDevice → Type 0)
    (d : ReducedBlockDevice) (ds : List ReducedBlockDevice)
    → Any P (insert_stable less d ds)
    → P d ⊎ Any P ds
unfolding insert_stable
insert_stable-Any less P d [] h = h
insert_stable-Any less P d (e ∷ es) h = elim (Bool-cases (less e d)) [
  | inl behind ↦ go (rw behind at h) (insert_stable-Any less P d es)
  | inr before ↦ rw before at h
]
  where
    go :
        P e ⊎ Any P (insert_stable less d es)
        → (Any P (insert_stable less d es) → P d ⊎ Any P es)
        → P d ⊎ (P e ⊎ Any P es)
    go (inl here) ih = inr (inl here)
    go (inr later) ih = elim (ih later) [ inl x ↦ inl x | inr x ↦ inr (inr x) ]

-- Sorting brings in no new device.
sort_stable-Any :
    (less : ReducedBlockDevice → ReducedBlockDevice → Bool) (P : ReducedBlockDevice → Type 0)
    (ds : List ReducedBlockDevice)
    → Any P (sort_stable less ds)
    → Any P ds
unfolding sort_stable
sort_stable-Any less P [] h = h
sort_stable-Any less P (d ∷ ds) h = elim (insert_stable-Any less P d (sort_stable less ds) h) [
  | inl here ↦ inl here
  | inr later ↦ inr (sort_stable-Any less P ds later)
]

first_name-Any :
    (drive : Text) (ds : List ReducedBlockDevice) → first_name ds ≡ ok drive → Any (Named drive) ds
first_name-Any drive [] h = absurd (cc)
first_name-Any drive (d ∷ ds) h = inl (cc)

smallest-Any :
    (drive : Text) (ds : List ReducedBlockDevice) → smallest ds ≡ ok drive → Any (Named drive) ds
unfolding smallest
smallest-Any drive [] h = absurd (cc)
smallest-Any drive (d ∷ []) h = absurd (cc)
smallest-Any drive (d ∷ e ∷ ds) h = elim (Bool-cases (ltb d.size e.size)) [
  | inl alone ↦ inl (let first : ok d.name ≡ ok drive = rw alone at h in cc)
  | inr tie ↦
      Any-map (λ x. (x.name ≡ drive) × ((x.size == d.size) ≡ true)) (Named drive) (d ∷ e ∷ ds)
        (λ x p. p.0)
        (Any-filter (Named drive) (λ f. f.size == d.size) (d ∷ e ∷ ds)
          (sort_stable-Any by_name_down (Named drive) (filter (λ f. f.size == d.size) (d ∷ e ∷ ds))
            (first_name-Any drive
              (sort_stable by_name_down (filter (λ f. f.size == d.size) (d ∷ e ∷ ds)))
              (rw tie at h))))
]

abbrev Called : Text → BlockDevice → Type 0
Called drive d = d.name ≡ drive

reduce_devices-Any :
    (env : RobotEnv) (drive : Text) (ds : List BlockDevice) (rs : List ReducedBlockDevice)
    → reduce_devices env ds ≡ ok rs
    → Any (Named drive) rs
    → Any (Called drive) ds
unfolding reduce_devices
reduce_devices-Any env drive [] rs h a = let none_left : [] ≡ rs = cc in rw (← none_left) at a
reduce_devices-Any env drive (d ∷ ds) rs h a =
    go (convert_size_to_int env d.size) refl (reduce_devices env ds) refl
      (reduce_devices-Any env drive ds)
  where
    pick :
        (size : ℕ) (ms : List ReducedBlockDevice)
        → rs ≡ record { name = d.name; size = size } ∷ ms
        → (Any (Named drive) ms → Any (Called drive) ds)
        → Any (Called drive) (d ∷ ds)
    pick size ms e ih = elim (rw e at a) [ inl here ↦ inl here | inr later ↦ inr (ih later) ]

    go :
        (r : Result ℕ)
        → convert_size_to_int env d.size ≡ r
        → (more : Result (List ReducedBlockDevice)) → reduce_devices env ds ≡ more
        → ((ms : List ReducedBlockDevice)
            → reduce_devices env ds ≡ ok ms
            → Any (Named drive) ms
            → Any (Called drive) ds)
        → Any (Called drive) (d ∷ ds)
    go (err e) q more m ih = let refused = rw (q, reduce_devices) at h in absurd (cc)
    go panic q more m ih = let refused = rw (q, reduce_devices) at h in absurd (cc)
    go (ok size) q (ok ms) m ih = pick size ms (ground arith) (ih ms m)
    go (ok size) q (err e) m ih = absurd (ground arith)
    go (ok size) q panic m ih = absurd (ground arith)

choose_ssd-Any :
    (env : RobotEnv) (start drive : Text) (ds : List BlockDevice)
    → choose_ssd env ds start ≡ ok drive
    → (start ≡ drive) ⊎ Any (Called drive) ds
unfolding choose_ssd
choose_ssd-Any env start drive [] h = inl (cc)
choose_ssd-Any env start drive (d ∷ []) h = inr (inl (cc))
choose_ssd-Any env start drive (d ∷ e ∷ ds) h =
    let (reduced, q, s) =
      then_result-ok (reduce_devices env (d ∷ e ∷ ds))
        (λ reduced. smallest (sort_stable by_size reduced)) drive h in
    inr (
      reduce_devices-Any env drive (d ∷ e ∷ ds) reduced q (
        sort_stable-Any by_size (Named drive) reduced
          (smallest-Any drive (sort_stable by_size reduced) s)))

abbrev Labelled : Text → BlockDevice → Type 0
Labelled drive d = (d.name ≡ drive) × (is_labelled d ≡ true)

-- After the scan the drive is the one before, or that of a labelled device.
scan_devices-drive :
    (ds : List BlockDevice) (s : Scan)
    → (s.drive ≡ (scan_devices ds s).drive) ⊎ Any (Labelled (scan_devices ds s).drive) ds
unfolding scan_devices
scan_devices-drive [] s = inl refl
scan_devices-drive (d ∷ ds) s = go (scan_devices-drive ds after)
  where
    after : Scan
    after = record {
      num_labels = if is_labelled d then suc s.num_labels else s.num_labels;
      has_children = if counts_as_used d then suc s.has_children else s.has_children;
      drive = if is_labelled d then d.name else s.drive;
    }

    go :
        (after.drive ≡ (scan_devices ds after).drive)
          ⊎ Any (Labelled (scan_devices ds after).drive) ds
        → (s.drive ≡ (scan_devices ds after).drive)
          ⊎ Any (Labelled (scan_devices ds after).drive) (d ∷ ds)
    go (inr later) = inr (inr later)
    go (inl same) = elim (Bool-cases (is_labelled d)) [
      | inl labelled ↦ inr (inl (ground arith, labelled))
      | inr other ↦ inl (ground arith)
    ]

-- The chosen device passes one of the two tests of the code.
find_correct_device-Any :
    (env : RobotEnv) (devices : List BlockDevice) (drive : Text)
    → find_correct_device env devices ≡ ok drive
    → drive ≢ []
    → Any (λ d. (d.name ≡ drive) × ((is_labelled d ≡ true) ⊎ (is_free_ssd d ≡ true))) devices
unfolding find_correct_device
find_correct_device-Any env devices drive h n = elim (Bool-cases (ltb 1 scan.num_labels)) [
  | inl several ↦ absurd (ground arith)
  | inr few ↦ elim (Bool-cases (scan.num_labels == 0)) [
    | inl unlabelled ↦ elim (Bool-cases (scan.has_children == length devices)) [
      | inl full ↦ absurd (ground arith)
      | inr room ↦
          let chosen : choose_ssd env (filter is_free_ssd devices) scan.drive ≡ ok drive =
            ground arith in
          elim (choose_ssd-Any env scan.drive drive (filter is_free_ssd devices) chosen) [
            | inl same ↦ labelled same
            | inr ssd ↦
                Any-map _ _ devices (λ d p. (p.0, inr p.1))
                  (Any-filter (Called drive) is_free_ssd devices ssd)
          ]
    ]
    | inr one ↦ labelled (ground arith)
  ]
]
  where
    scan : Scan
    scan = scan_devices devices initial_scan

    labelled :
        scan.drive ≡ drive
        → Any (λ d. (d.name ≡ drive) × ((is_labelled d ≡ true) ⊎ (is_free_ssd d ≡ true))) devices
    labelled same = elim (scan_devices-drive devices initial_scan) [
      | inl empty ↦ absurd (n (sym (empty ∙ same)))
      | inr some_device ↦ Any-map _ _ devices (λ d p. (p.0 ∙ same, inl p.1)) some_device
    ]

-- A disk on which a child bears the label of our image, or one that has no children and does not
-- rotate.
abbrev pub Installable : BlockDevice → Type 0
Installable d =
    (has_prefix d.name (text "sd") ≡ true)
    × (((children : List BlockDeviceData) × (d.children ≡ some children)
          × Any (λ c. c.label ≡ text "os") children)
        ⊎ ((d.children ≡ none) × (d.rotation ≡ false)))

any_os-Any :
    (children : List BlockDeviceData)
    → any_os children ≡ true
    → Any (λ c. c.label ≡ text "os") children
unfolding any_os
any_os-Any [] h = absurd (cc)
any_os-Any (c ∷ children) h = elim (Bool-cases (str_eq c.label os_label)) [
  | inl labelled ↦ inl ((str_eq_iff c.label os_label).0 labelled)
  | inr other ↦ inr (any_os-Any children (rw other at h))
]

labelled-Installable : (d : BlockDevice) → is_labelled d ≡ true → Installable d
labelled-Installable d h = go d.children refl
  where
    go : (o : Option (List BlockDeviceData)) → d.children ≡ o → Installable d
    go none e = absurd (unfold is_labelled in cc (rw e at h))
    go (some children) e =
        let (disk, os) = and_true (is_sd d) (any_os children) (unfold is_labelled in rw e at h) in
        (unfold is_sd in disk, inl (children, e, any_os-Any children os))

free_ssd-Installable : (d : BlockDevice) → is_free_ssd d ≡ true → Installable d
free_ssd-Installable d h = go d.children refl d.rotation refl
  where
    go :
        (o : Option (List BlockDeviceData))
        → d.children ≡ o
        → (b : Bool) → d.rotation ≡ b
        → Installable d
    go (some children) e b r = absurd (unfold is_free_ssd in cc (rw e at h))
    go none e true r = absurd (unfold is_free_ssd in ground arith)
    go none e false r = (unfold is_free_ssd is_sd in ground arith, inr (e, r))

-- When `findCorrectDevice` returns a name that is not empty, a device of that name is listed; it is
-- a disk (`sd`), and it has a child with the label `os` of an earlier image, or it has no children
-- and does not rotate.
pub find_correct_device-safe :
    (env : RobotEnv) (devices : List BlockDevice) (drive : Text)
    → find_correct_device env devices ≡ ok drive
    → drive ≢ []
    → Any (λ d. (d.name ≡ drive) × Installable d) devices
find_correct_device-safe env devices drive h n =
    Any-map (λ d. (d.name ≡ drive) × ((is_labelled d ≡ true) ⊎ (is_free_ssd d ≡ true)))
      (λ d. (d.name ≡ drive) × Installable d) devices
      (λ d p. elim (p.1) [
        | inl labelled ↦ (p.0, labelled-Installable d labelled)
        | inr free ↦ (p.0, free_ssd-Installable d free)
      ])
      (find_correct_device-Any env devices drive h n)
