-- ===== src/Lib.antt =====
-- A model of cluster-api-provider-hcloud, the controllers that keep Kubernetes clusters running on
-- the Hetzner cloud, and the theorems that show what they do.
--
-- A controller is called with one object of the management cluster. It builds a scope, which holds
-- the object, its cluster and the clients of the other systems, and calls one service for each
-- kind of cloud object. A service looks for its objects by the cluster's labels, creates what is
-- missing, and writes what it found into the status. Deletion goes the other way, and gives up the
-- object's finalizer at the end.
--
-- Base passes the libraries' names on and holds texts, lists, maps and sorting. Exec is the monad
-- of the Go code: a state, and a value, an error or a panic; what was written before an error
-- stays. Exec/Ensures reasons about what holds when a call ends with a value, Exec/Keeps about
-- what a call leaves as it was. Hcloud has the objects of the cloud's API and the clients
-- (pkg/scope/hcloudClient.go), which are parameters: the answer to a request is a function of all
-- requests so far, so nothing is assumed of other systems unless a theorem says so, and a
-- statement on requests is one on the `trace` of the scope. Fixtures has a concrete cloud.
--
-- Api models api/v1alpha3: the types, tags.go (Api/Tags, with pkg/cloud/utils) and the webhooks
-- (Api/Webhook). Scope models pkg/scope: cluster.go, machine.go (`GetFailureDomain` is
-- Scope/FailureDomain, `GetRawBootstrapData` is `get_raw_bootstrap_data`) and volume.go. Location,
-- Network, Volume, LoadBalancer and Server model the services of that name under
-- pkg/cloud/resources: `Reconcile` is `reconcile`, `Delete` is `delete`, and helper functions keep
-- their names. Controllers models the controllers for clusters, machines, volumes and bare metal
-- machines under controllers/, from the scope on. Csr models pkg/csr/csr.go and
-- cluster_csr_controller.go. Packer models `EnsureImage` of pkg/packer/packer.go with the hash of
-- pkg/packer/api/api.go, and Packer/Steps the calls and the ends of builds as steps in any order.
--
-- UserData models pkg/userdata/userdata.go: the tree of YAML nodes and `SetOrUpdateFile`, the
-- kubeadm configuration (UserData/Config) and `SkipKubeProxy` (UserData/Proxy). A pointer into the
-- tree is a place in it. The packages that read and print YAML are parameters; `user_data` of
-- UserData/Config fills the interface that Server and BareMetal take. BareMetal models
-- pkg/baremetal/baremetal.go with its scope and resource: the names of machines (BareMetal/Names),
-- the choice of a device (Devices), `runSSH` and the keys (Ssh), the lists of machines
-- (Selection), `provisionMachine` (Provision), and `Reconcile` and `Delete` (Service). The client
-- of Hetzner Robot, the secrets, the SSH connections and the clock are parameters like the clients
-- of the cloud.
--
-- A `*ctrl.Result` is an optional number of seconds; with an error it is dropped, as the caller
-- drops it. An error keeps its format string and its cause, not the values printed. A nil
-- dereference and an index out of range are panics. Integers that the code does arithmetic on keep
-- their wrap-around (a byte of an address, the port as int32); sizes and identifiers are ℕ. A Go
-- map is an association list in the order of one iteration. All loops of the code are over finite
-- lists and are structural recursion, so no fuel is needed; the one over attempts to connect is
-- recursion on the attempts left, of which the code has 200 / 30.
--
-- Not modelled: logging; the fetching of the objects before a scope is built; the goroutine that
-- runs a guest cluster's manager; the files and processes of pkg/packer; pkg/manifests; program
-- entry, mocks and generated code.
pub mod Base
pub mod Exec
pub mod Api
pub mod Hcloud
pub mod Scope
pub mod Location
pub mod Network
pub mod Volume
pub mod LoadBalancer
pub mod Server
pub mod UserData
pub mod BareMetal
pub mod Controllers
pub mod Csr
pub mod Packer
pub mod Fixtures
