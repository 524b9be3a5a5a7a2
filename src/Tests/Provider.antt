-- ===== src/Tests/Provider.antt =====
-- The start of the provider, with constructors that keep what they are given.
use cloud_provider_tencent.Base.{ℕ, ◌≡◌, refl, none, some, [], String, string_beq}
use cloud_provider_tencent.Go.Strings.{bytes, trim_space}
use cloud_provider_tencent.Go.Exec.{Outcome, value}
use cloud_provider_tencent.Cache.{Object}
use cloud_provider_tencent.Cloud.{new_cloud, check_config, fill_from_env}
use cloud_provider_tencent.Cloud.Settings.{IsComplete}
use cloud_provider_tencent.Cloud.Provider.{
  Constructors, Account, Builds, IsReady, cloud_of, registered, initialize, registered-IsReady,
}
use cloud_provider_tencent.Tests.Data.{settings}

abbrev constructors : Constructors
constructors = record {
  ClientBuilder = Unit {0};
  KubeClient = String;
  Credential = String × String;
  ClientProfile = ℕ;
  CvmClient = (String × String) × String × ℕ;
  TkeClient = (String × String) × String × ℕ;
  ClbClient = (String × String) × String × ℕ;
  Store = (Object → Outcome String) × ℕ;
  client_or_die = λ b name. name;
  new_credential = λ id key. (id, key);
  new_client_profile = 60;
  set_req_timeout = λ timeout p. timeout;
  new_cvm_client = λ k region p. (some (k, region, p), none);
  new_tke_client = λ k region p. (some (k, region, p), none);
  new_clb_client = λ k region p. (some (k, region, p), none);
  new_ttl_store = λ key_func ttl. (key_func, ttl);
}

abbrev account : (String × String) × String × ℕ → Account constructors
account ((id, key), region, timeout) = record {
  secret_id = id;
  secret_key = key;
  region = region;
  timeout = timeout;
}

abbrev constructors-Builds : Builds constructors
constructors-Builds = record {
  secrets = λ k. k;
  timeout_of = λ p. p;
  cvm_account = account;
  tke_account = account;
  clb_account = account;
  lifetime = λ s. s.1;
  key_of = λ s. s.0;
  new_credential_secrets = λ id key. refl;
  set_req_timeout_of = λ n p. refl;
  cvm = λ k region p h. ((k, region, p), refl, refl);
  tke = λ k region p h. ((k, region, p), refl, refl);
  clb = λ k region p h. ((k, region, p), refl, refl);
  new_ttl_store_lifetime = λ f ttl. refl;
  new_ttl_store_key = λ f ttl o. refl;
}

accepted :
    registered constructors (λ name. []) (some (value settings))
    ≡ value (cloud_of constructors settings)
unfolding registered new_cloud fill_from_env check_config cloud_of trim_space bytes string_beq
accepted = refl

registered-IsReady_example :
    IsReady constructors constructors-Builds
      (initialize constructors tt (cloud_of constructors settings))
    × ((initialize constructors tt (cloud_of constructors settings)).tx_config
        ≡ fill_from_env (λ name. []) settings)
    × IsComplete (initialize constructors tt (cloud_of constructors settings)).tx_config
registered-IsReady_example =
    registered-IsReady constructors (λ name. []) settings (cloud_of constructors settings) tt
      constructors-Builds accepted
