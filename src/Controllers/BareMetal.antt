-- ===== src/Controllers/BareMetal.antt =====
-- `reconcileDelete` and `reconcileNormal` of controllers/baremetalmachine_controller.go.
use cluster_api_provider_hcl.Base.{text, none, some}
use cluster_api_provider_hcl.Exec.{Exec, pure, gets, wrapping, ◌>>=◌, ◌>>◌}
use cluster_api_provider_hcl.Api.{machine_finalizer}
use cluster_api_provider_hcl.Server.{Requeue}
use cluster_api_provider_hcl.Server.Kubeadm.{UserData}
use cluster_api_provider_hcl.BareMetal.{RobotCall, RobotEnv, BareMetalScope, call, update_machine}
use cluster_api_provider_hcl.BareMetal.Service
use cluster_api_provider_hcl.Controllers.Finalizers.{add_finalizer, remove_finalizer}

-- `breakReconcile`: a result that is not nil ends the reconciliation.
unfoldable pub break_reconcile : Exec BareMetalScope Requeue → Requeue → Exec BareMetalScope Requeue
break_reconcile rest none = rest
break_reconcile rest (some seconds) = pure (some seconds)

-- `RemoveFinalizer`
unfoldable pub release : Exec BareMetalScope Requeue
unfolding remove_finalizer
release =
    update_machine (λ m. record m { finalizers = remove_finalizer machine_finalizer m.finalizers })
    >> pure none

-- `reconcileDelete`
unfoldable pub reconcile_delete : RobotEnv → Exec BareMetalScope Requeue
unfolding break_reconcile release
reconcile_delete env =
    wrapping (text "failed to delete servers for BareMetalMachine %s/%s") (Service.delete env)
    >>= break_reconcile release

-- `PatchObject`
unfoldable pub patch_object : RobotEnv → Exec BareMetalScope (Unit {0})
patch_object env = do
  finalizers ← gets (λ s. s.machine.finalizers)
  call RobotCall.patch (λ h. env.patch h finalizers)

-- `reconcileNormal`
unfoldable pub reconcile_normal :
    {Doc : Type 0} → RobotEnv → UserData Doc → Exec BareMetalScope Requeue
unfolding add_finalizer patch_object break_reconcile
reconcile_normal env user_data_lib = do
  update_machine (λ m. record m { finalizers = add_finalizer machine_finalizer m.finalizers })
  patch_object env
  result ←
      wrapping (text "failed to reconcile server for BareMetalMachine %s/%s")
        (Service.reconcile env user_data_lib)
  break_reconcile (pure none) result
