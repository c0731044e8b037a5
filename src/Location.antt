-- ===== src/Location.antt =====
-- The location service (pkg/cloud/resources/location/location.go): it resolves the locations of a
-- cluster or a volume against those of the cloud, all in one network zone.
pub mod Collect
pub mod Resolve
pub mod Reconcile
mod Tests
use cluster_api_provider_hcl.Base.{
  Text, text, ℕ, Bool, Option, none, some, List, [], ◌∷◌, ◌++◌, Dict, put, lookup, if◌then◌else◌,
  str_eq, ◌==◌, length, sort_strings,
}
use cluster_api_provider_hcl.Exec.{
  Error, failure, Result, ok, err, panic, Exec, deref, of_result, modify, ◌>>=◌, ◌>>◌, crash,
}
use cluster_api_provider_hcl.Hcloud.{Call, Location, Env}
use cluster_api_provider_hcl.Scope.{
  ClusterScope, VolumeScope, call, on_volume_cluster, set_status_locations,
}

abbrev pub network_zone_eu_central : Text
network_zone_eu_central = text "eu-central"

-- `allLocationsMap`: a later location replaces an earlier one of the same name.
unfoldable pub locations_map : List Location → Dict Location → Dict Location
locations_map [] m = m
locations_map (l ∷ ls) m = locations_map ls (put l.name l m)

-- The loop over all locations for a spec without any.
unfoldable pub default_locations : List Location → List Text
default_locations [] = []
default_locations (l ∷ ls) =
    let rest = default_locations ls in
    if str_eq network_zone_eu_central l.network_zone then l.name ∷ rest else rest

-- `if networkZone == nil { networkZone = &nZ }`
abbrev pub zone_or : Option Text → Text → Text
zone_or none nz = nz
zone_or (some z) nz = z

-- The loop over the locations of the spec, on the network zone and the names so far.
unfoldable pub collect :
    Dict Location → List Text → Option Text → List Text → Result (Option Text × List Text)
collect m [] zone locations = ok (zone, locations)
collect m (l ∷ ls) zone locations = elim (lookup l m) [
  | none ↦ err (failure (text "error location '%s' cannot be found"))
  | some location ↦
      let z = zone_or zone location.network_zone in
      let rest = collect m ls (some z) (locations ++ (location.name ∷ [])) in
      if str_eq z location.network_zone
      then rest
      else err (
          failure (
            text
              "error all locations need to be in the same NetworkZone. %s in NetworkZone %s, %s in NetworkZone %s"))
]

-- What follows the loop: the test for an empty list, the sort, and `*networkZone`.
unfoldable pub finish : Option Text × List Text → Result (List Text × Text)
finish (zone, locations) =
    if length locations == 0
    then err (failure (text "error locations is empty"))
    else elim zone [ none ↦ panic | some z ↦ ok (sort_strings locations, z) ]

abbrev pub and_finish : Result (Option Text × List Text) → Result (List Text × Text)
and_finish (ok r) = finish r
and_finish (err e) = err e
and_finish panic = panic

-- `Reconcile` between the request and `SetStatusLocations`
unfoldable pub resolve : List Location → List Text → Result (List Text × Text)
unfolding default_locations
resolve all_locations spec_locations =
    let m = locations_map all_locations [] in
    and_finish (
      if length spec_locations == 0
      then collect m spec_locations (some network_zone_eu_central) (default_locations all_locations)
      else collect m spec_locations none [])

-- `localScope`: what the service asks of a scope.
pub record LocalScope (S : Type 0) : Type 0 where
  pub list_location : Exec S (List Location)
  pub get_spec_locations : S → List Text
  pub set_status_locations : List Text → Text → Exec S (Unit {0})

-- `Service.Reconcile`
unfoldable pub reconcile : {S : Type 0} → LocalScope S → Exec S (Unit {0})
reconcile scope s =
    (do
      all_locations ← scope.list_location
      (locations, zone) ← of_result (resolve all_locations (scope.get_spec_locations s))
      scope.set_status_locations locations zone)
      s

-- `ClusterScope` as a `localScope`
unfoldable pub cluster_local_scope : Env → LocalScope ClusterScope
cluster_local_scope env = record {
  list_location = call Call.list_location env.hcloud.list_location;
  get_spec_locations = λ s. s.hcloud_cluster.spec.locations;
  set_status_locations = λ locations zone.
      modify
        λ s. record s { hcloud_cluster = set_status_locations locations zone s.hcloud_cluster };
}

-- `location[0]`
first_location : List Text → Exec VolumeScope (Unit {0})
first_location [] = crash
first_location (l ∷ ls) = modify λ s. record s {
  hcloud_volume = record (s.hcloud_volume) {
    status = record (s.hcloud_volume.status) { location = l };
  };
}

-- `VolumeScope` as a `localScope`
unfoldable pub volume_local_scope : Env → LocalScope VolumeScope
unfolding first_location
volume_local_scope env = record {
  list_location = on_volume_cluster (call Call.list_location env.hcloud.list_location);
  get_spec_locations = λ s. s.hcloud_volume.spec.location ∷ [];
  set_status_locations = λ locations zone. first_location locations;
}
