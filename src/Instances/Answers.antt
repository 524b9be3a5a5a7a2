-- ===== src/Instances/Answers.antt =====
-- pkg/tencentcloud/instances.go: which answers InstanceExistsByProviderID and
-- InstanceShutdownByProviderID can give.
use cloud_provider_tencent.Go.Exec.Inversion.{same_outcome}
use cloud_provider_tencent.Base.{
  ◌≡◌, ◌≢◌, ◌∙◌, refl, sym, Bool, true, false, Option, none, some, String, string_eq,
}
use cloud_provider_tencent.Go.Errors.{Error, instance_not_found, is_instance_not_found}
use cloud_provider_tencent.Go.Exec.{
  Outcome, ok, err, panic, pure, attempt, returned, continue, ◌>>=◌,
}
use cloud_provider_tencent.Sdk.Env.{Env}
use cloud_provider_tencent.Sdk.{Instance}
use cloud_provider_tencent.Cloud.{TxCloudConfig}
use cloud_provider_tencent.Instances.Lookup.{get_instance_by_provider_id}
use cloud_provider_tencent.Instances.Api.{exists_of, instance_exists_by_provider_id}

-- What the lookup came to and what InstanceExistsByProviderID makes of it.
abbrev pub existence : Outcome Instance → Outcome (Bool × Option Error)
existence (ok i) = ok (true, none)
existence (err Error.instance_not_found) = ok (false, some instance_not_found)
existence (err e) = ok (true, some e)
existence panic = panic

exists_lem :
    {W : Type 0} (r : Outcome Instance) (w : W)
    → continue (returned r w).0 (λ found. pure (exists_of found)) (returned r w).1
      ≡ (existence r, w)
unfolding exists_of is_instance_not_found pure
exists_lem (ok i) w = refl
exists_lem (err Error.instance_not_found) w = refl
exists_lem (err _) w = refl
exists_lem panic w = refl

existence-ne : (r : Outcome Instance) → existence r ≢ ok (false, none)
existence-ne (ok i) h = cc
existence-ne (err Error.instance_not_found) h = cc
existence-ne (err _) h = cc
existence-ne panic h = cc

module _ (E : Env) (tx_config : TxCloudConfig) (provider_id : String) (w : E.World) where
  -- InstanceExistsByProviderID says true with no error where the lookup succeeds, false with
  -- InstanceNotFound where the lookup fails with that, and true beside every other error.
  instance_exists_by_provider_id_lem : instance_exists_by_provider_id E tx_config provider_id w ≡ (
    existence (get_instance_by_provider_id E tx_config provider_id w).0,
    (get_instance_by_provider_id E tx_config provider_id w).1,
  )
  unfolding instance_exists_by_provider_id attempt ◌>>=◌
  instance_exists_by_provider_id_lem = exists_lem _ _

-- In no world does InstanceExistsByProviderID return false with no error, the one answer at which
-- the controller manager deletes a node.
pub instance_exists_by_provider_id-ne :
    (E : Env) (tx_config : TxCloudConfig) (provider_id : String) (w : E.World)
    → (instance_exists_by_provider_id E tx_config provider_id w).0 ≢ ok (false, none)
instance_exists_by_provider_id-ne E tx_config provider_id w h =
    existence-ne _
      (sym (same_outcome (instance_exists_by_provider_id_lem E tx_config provider_id w)) ∙ h)
