-- ===== src/Cloud/Settings.antt =====
-- pkg/tencentcloud/cloud.go: which configurations NewCloud accepts.
use cloud_provider_tencent.Base.{
  ◌≡◌, ◌≢◌, refl, sym, ap, Option, none, some, [], String, string_eq, string_beq_iff, ◌↔◌, arith,
}
use cloud_provider_tencent.Go.Strings.{trim_space}
use cloud_provider_tencent.Go.Errors.{Error}
use cloud_provider_tencent.Go.Exec.{value}
use cloud_provider_tencent.Cloud.{TxCloudConfig, checked, check_config, fill_from_env, new_cloud}

-- No setting is empty or made of white space alone.
pub record IsComplete (c : TxCloudConfig) : Type 0 where
  pub region : trim_space c.region ≢ []
  pub vpc_id : trim_space c.vpc_id ≢ []
  pub clb_name_prefix : trim_space c.clb_name_prefix ≢ []
  pub tag_key : trim_space c.tag_key ≢ []
  pub secret_id : trim_space c.secret_id ≢ []
  pub secret_key : trim_space c.secret_key ≢ []
  pub cluster_route_table : trim_space c.cluster_route_table ≢ []

check_config_iff : (c : TxCloudConfig) → (check_config c ≡ none) ↔ IsComplete c
unfolding check_config
check_config_iff c = ground (
  arith,
  string_beq_iff (trim_space c.region) [],
  string_beq_iff (trim_space c.vpc_id) [],
  string_beq_iff (trim_space c.clb_name_prefix) [],
  string_beq_iff (trim_space c.tag_key) [],
  string_beq_iff (trim_space c.secret_id) [],
  string_beq_iff (trim_space c.secret_key) [],
  string_beq_iff (trim_space c.cluster_route_table) [],
)

checked-value :
    (c d : TxCloudConfig) (o : Option Error)
    → ((o ≡ none) ↔ IsComplete d)
    → (checked d o ≡ value c) ↔ ((c ≡ d) × IsComplete d)
unfolding checked
checked-value c d none k = ((λ h. (cc, k.0 refl)), (λ h. ap value (sym h.0)))
checked-value c d (some x) k = ((λ h. absurd (cc)), (λ h. absurd (none-ne (k.1 h.1))))
  where
    none-ne : some x ≡ none → ⊥
    none-ne h = cc

-- NewCloud, given a configuration that was decoded, returns a cloud exactly when every setting,
-- taken from the environment where the configuration leaves it empty, has a character other than
-- white space; the cloud then has these settings.
pub new_cloud_iff :
    (getenv : String → String) (config c : TxCloudConfig)
    → (new_cloud getenv (some (value config)) ≡ value c)
      ↔ ((c ≡ fill_from_env getenv config) × IsComplete (fill_from_env getenv config))
unfolding new_cloud
new_cloud_iff getenv config c =
    checked-value c (fill_from_env getenv config) (check_config (fill_from_env getenv config))
      (check_config_iff (fill_from_env getenv config))
