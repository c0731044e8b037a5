-- ===== src/Controllers/Machine/Release.antt =====
-- When the machine controller gives up its finalizer.
use cluster_api_provider_hcl.Base.{
  Text, text, false, none, some, mem_text, ◌≡◌, ◌≢◌, ◌⊎◌, inl, inr, refl, arith,
}
use cluster_api_provider_hcl.Exec.{ok, Exec, wrapping, ◌>>=◌}
use cluster_api_provider_hcl.Exec.Ensures.{bind-ok, wrapping-ok}
use cluster_api_provider_hcl.Exec.Keeps.{
  Keeps, KeepsUnless, Keeps-wrapping, KeepsUnless-bind, is_done_or_not,
}
use cluster_api_provider_hcl.Api.{machine_finalizer}
use cluster_api_provider_hcl.Hcloud.{Env}
use cluster_api_provider_hcl.Scope.{MachineScope}
use cluster_api_provider_hcl.Server
use cluster_api_provider_hcl.Server.{Requeue}
use cluster_api_provider_hcl.Server.Removal.{Gone, server_delete-Gone}
use cluster_api_provider_hcl.Controllers.Finalizers.{remove_finalizer-mem}
use cluster_api_provider_hcl.Controllers.Machine.{reconcile_delete, break_reconcile, release}

delete-Keeps : (env : Env) → Keeps (λ s. s.hcloud_machine.finalizers) (Server.delete env)
unfolding Server.delete Server.find_server
delete-Keeps env = record { at = λ s. ground arith }

break_reconcile-Keeps :
    (result : Requeue)
    → KeepsUnless none (λ s. s.hcloud_machine.finalizers) (break_reconcile result release)
unfolding break_reconcile release
break_reconcile-Keeps none = record { at = λ s n. absurd (n refl) }
break_reconcile-Keeps (some seconds) = record { at = λ s n. refl }

reconcile_delete-Keeps :
    (env : Env) → KeepsUnless none (λ s. s.hcloud_machine.finalizers) (reconcile_delete env)
unfolding reconcile_delete
reconcile_delete-Keeps env =
    KeepsUnless-bind none
      (wrapping (text "failed to delete servers for HcloudMachine %s/%s") (Server.delete env))
      (λ result. break_reconcile result release)
      (Keeps-wrapping _ (Server.delete env) (delete-Keeps env)) break_reconcile-Keeps

-- When `reconcileDelete` ends with neither an error nor a time to come back.
machine_deleted :
    (env : Env) (s : MachineScope)
    → (reconcile_delete env s).0 ≡ ok none
    → (mem_text machine_finalizer (reconcile_delete env s).1.hcloud_machine.finalizers ≡ false)
      × Gone env s (reconcile_delete env s).1.cluster_scope.trace
machine_deleted env s h =
    let (result, q, k, e) =
      bind-ok message_delete (λ result. break_reconcile result release) s none
        (unfold reconcile_delete in h) in
    go result (wrapping-ok message (Server.delete env) s result q) k e
  where
    message : Text
    message = text "failed to delete servers for HcloudMachine %s/%s"

    message_delete : Exec MachineScope Requeue
    message_delete = wrapping message (Server.delete env)

    go :
        (result : Requeue)
        → (Server.delete env s).0 ≡ ok result
        → (break_reconcile result release (Server.delete env s).1).0 ≡ ok none
        → ((message_delete >>= λ result. break_reconcile result release) s).1
          ≡ (break_reconcile result release (Server.delete env s).1).1
        → (mem_text machine_finalizer (reconcile_delete env s).1.hcloud_machine.finalizers ≡ false)
          × Gone env s (reconcile_delete env s).1.cluster_scope.trace
    go none q k e =
        unfold reconcile_delete in
        rw e (
          unfold break_reconcile release in
          (
            remove_finalizer-mem machine_finalizer
                (Server.delete env s).1.hcloud_machine.finalizers,
            server_delete-Gone env s q,
          ))
    go (some n) q k e = absurd (unfold break_reconcile in cc)

-- `reconcileDelete` of a machine ends with neither an error nor a time to come back, and then the
-- machine's finalizer is gone and no server is left behind: the cloud listed none with the machine's
-- labels, or exactly one, which was off and whose deletion the cloud accepted. Or it ends in another
-- way, and then the machine has the finalizers that it had.
pub machine_released :
    (env : Env) (s : MachineScope)
    → (((reconcile_delete env s).0 ≡ ok none)
        × (mem_text machine_finalizer (reconcile_delete env s).1.hcloud_machine.finalizers ≡ false)
        × Gone env s (reconcile_delete env s).1.cluster_scope.trace)
      ⊎ (((reconcile_delete env s).0 ≢ ok none)
          × ((reconcile_delete env s).1.hcloud_machine.finalizers ≡ s.hcloud_machine.finalizers))
machine_released env s = elim (is_done_or_not (reconcile_delete env s).0) [
  | inl done ↦ let (released, gone) = machine_deleted env s done in inl (done, released, gone)
  | inr other ↦ inr (other, (reconcile_delete-Keeps env).at s other)
]
