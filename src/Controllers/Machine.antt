-- ===== src/Controllers/Machine.antt =====
-- `reconcileDelete` and `reconcileNormal` of controllers/hcloudmachine_controller.go.
pub mod Release
use cluster_api_provider_hcl.Base.{Text, text, ℕ, Option, none, some, List, [], ◌∷◌}
use cluster_api_provider_hcl.Exec.{Result, ok, err, panic, Exec, pure, gets, wrapping, ◌>>=◌, ◌>>◌}
use cluster_api_provider_hcl.Api.{machine_finalizer}
use cluster_api_provider_hcl.Hcloud.{Call, Env}
use cluster_api_provider_hcl.Scope.{
  MachineScope, ClusterScope, call, on_cluster, update_hcloud_machine,
}
use cluster_api_provider_hcl.Server
use cluster_api_provider_hcl.Server.{Requeue}
use cluster_api_provider_hcl.Server.Kubeadm.{UserData}
use cluster_api_provider_hcl.Controllers.Finalizers.{add_finalizer, remove_finalizer}

-- `breakReconcile`: a result that is not nil ends the reconciliation.
unfoldable pub break_reconcile : Requeue → Exec MachineScope Requeue → Exec MachineScope Requeue
break_reconcile none rest = rest
break_reconcile (some seconds) rest = pure (some seconds)

-- `RemoveFinalizer`
unfoldable pub release : Exec MachineScope Requeue
unfolding remove_finalizer
release = do
  update_hcloud_machine
      (λ m. record m { finalizers = remove_finalizer machine_finalizer m.finalizers })
  pure none

-- `reconcileDelete`
unfoldable pub reconcile_delete : Env → Exec MachineScope Requeue
unfolding break_reconcile release Server.delete
reconcile_delete env =
    wrapping (text "failed to delete servers for HcloudMachine %s/%s") (Server.delete env)
    >>= λ result. break_reconcile result release

-- `PatchObject`
unfoldable pub patch_object : Env → Exec MachineScope (Unit {0})
patch_object env = do
  finalizers ← gets (λ s. s.hcloud_machine.finalizers)
  on_cluster (call (Call.patch finalizers) (λ h. env.kube.patch h finalizers))

-- `reconcileNormal`
unfoldable pub reconcile_normal : {Doc : Type 0} → Env → UserData Doc → Exec MachineScope Requeue
unfolding add_finalizer patch_object break_reconcile Server.reconcile
reconcile_normal env user_data_lib = do
  update_hcloud_machine
      (λ m. record m { finalizers = add_finalizer machine_finalizer m.finalizers })
  patch_object env
  result ←
      wrapping (text "failed to reconcile server for HcloudMachine %s/%s")
        (Server.reconcile env user_data_lib)
  break_reconcile result (pure none)
