-- ===== src/Cloud/Provider.antt =====
-- pkg/tencentcloud/cloud.go: the provider that init registers, and what Initialize gives it.
use cloud_provider_tencent.Base.{
  ℕ, ◌*◌, ◌≡◌, ◌≢◌, ◌∙◌, refl, sym, ap, subst, [], Option, none, some, String,
}
use cloud_provider_tencent.Go.Strings.{bytes, trim_space}
use cloud_provider_tencent.Go.Errors.{ApiError}
use cloud_provider_tencent.Go.Exec.{Outcome, ok, Result, value, error}
use cloud_provider_tencent.Sdk.Env.{TencentCloudCacheEntry}
use cloud_provider_tencent.Cache.{Object, an_entry, TtlCache, new_ttl_cache}
use cloud_provider_tencent.Cloud.{TxCloudConfig, new_cloud, fill_from_env}
use cloud_provider_tencent.Cloud.Settings.{IsComplete, new_cloud_iff}

-- The constructors of the packages that the program uses. A client is nil where there is none.
pub record Constructors : Type 1 where
  pub ClientBuilder : Type 0
  pub KubeClient : Type 0
  pub Credential : Type 0
  pub ClientProfile : Type 0
  pub CvmClient : Type 0
  pub TkeClient : Type 0
  pub ClbClient : Type 0
  pub Store : Type 0
  pub client_or_die : ClientBuilder → String → KubeClient
  pub new_credential : String → String → Credential
  pub new_client_profile : ClientProfile
  pub set_req_timeout : ℕ → ClientProfile → ClientProfile
  pub new_cvm_client : Credential → String → ClientProfile → Option CvmClient × Option ApiError
  pub new_tke_client : Credential → String → ClientProfile → Option TkeClient × Option ApiError
  pub new_clb_client : Credential → String → ClientProfile → Option ClbClient × Option ApiError
  pub new_ttl_store : (Object → Outcome String) → ℕ → Store

-- 60 * time.Second, in nanoseconds
abbrev pub ttl_time : ℕ
ttl_time = 60 * 1000000000

module _ (S : Constructors) where
  pub record Cloud : Type 0 where
    pub tx_config : TxCloudConfig
    pub kube_client : Option S.KubeClient
    pub cvm : Option S.CvmClient
    pub tke : Option S.TkeClient
    pub clb : Option S.ClbClient
    pub cache : Option (TtlCache S.Store)

  -- &Cloud{txConfig: c}
  unfoldable pub cloud_of : TxCloudConfig → Cloud
  cloud_of c = record {
    tx_config = c;
    kube_client = none;
    cvm = none;
    tke = none;
    clb = none;
    cache = none;
  }

  built : Result TxCloudConfig → Result Cloud
  unfolding cloud_of
  built (value c) = value (cloud_of c)
  built (error e) = error e

  -- The function that init registers under the name of the provider.
  unfoldable pub registered : (String → String) → Option (Result TxCloudConfig) → Result Cloud
  unfolding built
  registered getenv config = built (new_cloud getenv config)

  -- Initialize: an error of a constructor is only logged.
  unfoldable pub initialize : S.ClientBuilder → Cloud → Cloud
  unfolding new_ttl_cache
  initialize client_builder cloud =
      let c = cloud.tx_config in
      let credential = S.new_credential c.secret_id c.secret_key in
      let cpf = S.set_req_timeout 10 S.new_client_profile in
      let (cvm_client, _) = S.new_cvm_client credential c.region cpf in
      let (tke_client, _) = S.new_tke_client credential c.region cpf in
      let (clb_client, _) = S.new_clb_client credential c.region cpf in
      record {
        tx_config = c;
        kube_client = some (S.client_or_die client_builder (bytes "tencentcloud-cloud-provider"));
        cvm = cvm_client;
        tke = tke_client;
        clb = clb_client;
        cache = some (new_ttl_cache S.new_ttl_store ttl_time);
      }

  -- What a client signs its requests with, where it sends them, and how long it waits: the secret
  -- id and the secret key, the region, and the seconds of the timeout.
  pub record Account : Type 0 where
    pub secret_id : String
    pub secret_key : String
    pub region : String
    pub timeout : ℕ

  abbrev account_of :
      (S.Credential → String × String)
      → (S.ClientProfile → ℕ)
      → S.Credential
      → String
      → S.ClientProfile
      → Account
  account_of secrets timeout_of k region p = record {
    secret_id = (secrets k).0;
    secret_key = (secrets k).1;
    region = region;
    timeout = timeout_of p;
  }

  -- Where it is given a region, a constructor of a client gives one that signs with the secrets of
  -- the credential, sends to the region and waits as the profile says; a store keeps an entry for
  -- the time to live that it is made with, and finds entries by their key.
  pub record Builds : Type 0 where
    pub secrets : S.Credential → String × String
    pub timeout_of : S.ClientProfile → ℕ
    pub cvm_account : S.CvmClient → Account
    pub tke_account : S.TkeClient → Account
    pub clb_account : S.ClbClient → Account
    pub lifetime : S.Store → ℕ
    pub key_of : S.Store → Object → Outcome String
    pub new_credential_secrets : (id key : String) → secrets (S.new_credential id key) ≡ (id, key)
    pub set_req_timeout_of : (n : ℕ) (p : S.ClientProfile) → timeout_of (S.set_req_timeout n p) ≡ n
    pub cvm :
        (k : S.Credential) (region : String) (p : S.ClientProfile)
        → region ≢ []
        → (c : S.CvmClient) × ((S.new_cvm_client k region p).0 ≡ some c)
          × (cvm_account c ≡ account_of secrets timeout_of k region p)
    pub tke :
        (k : S.Credential) (region : String) (p : S.ClientProfile)
        → region ≢ []
        → (c : S.TkeClient) × ((S.new_tke_client k region p).0 ≡ some c)
          × (tke_account c ≡ account_of secrets timeout_of k region p)
    pub clb :
        (k : S.Credential) (region : String) (p : S.ClientProfile)
        → region ≢ []
        → (c : S.ClbClient) × ((S.new_clb_client k region p).0 ≡ some c)
          × (clb_account c ≡ account_of secrets timeout_of k region p)
    pub new_ttl_store_lifetime :
        (f : Object → Outcome String) (ttl : ℕ) → lifetime (S.new_ttl_store f ttl) ≡ ttl
    pub new_ttl_store_key :
        (f : Object → Outcome String) (ttl : ℕ) (o : Object)
        → key_of (S.new_ttl_store f ttl) o ≡ f o

  -- The account that the settings describe, with a timeout of ten seconds.
  abbrev pub own_account : TxCloudConfig → Account
  own_account c = record {
    secret_id = c.secret_id;
    secret_key = c.secret_key;
    region = c.region;
    timeout = 10;
  }

  -- Behind every pointer that the methods follow there is a client for the account of the settings,
  -- or a cache whose store keeps entries for the given time and finds an entry by its key.
  pub record IsReady (B : Builds) (cloud : Cloud) : Type 0 where
    pub kube_client : (k : S.KubeClient) × (cloud.kube_client ≡ some k)
    pub cvm :
        (c : S.CvmClient) × (cloud.cvm ≡ some c) × (B.cvm_account c ≡ own_account cloud.tx_config)
    pub tke :
        (c : S.TkeClient) × (cloud.tke ≡ some c) × (B.tke_account c ≡ own_account cloud.tx_config)
    pub clb :
        (c : S.ClbClient) × (cloud.clb ≡ some c) × (B.clb_account c ≡ own_account cloud.tx_config)
    pub cache :
        (c : TtlCache S.Store) × (cloud.cache ≡ some c)
        × (B.lifetime c.store ≡ ttl_time)
        × ((item : TencentCloudCacheEntry) → B.key_of c.store (an_entry item) ≡ ok item.key)

  built-value :
      (r : Result TxCloudConfig) (c : Cloud)
      → built r ≡ value c
      → (r ≡ value c.tx_config) × (c ≡ cloud_of c.tx_config)
  unfolding built cloud_of
  built-value (value d) c e =
      let same : cloud_of d ≡ c = cc in
      subst (λ (x : Cloud). (value d ≡ value x.tx_config) × (x ≡ cloud_of x.tx_config)) same
        (refl, refl)
  built-value (error x) c e = absurd (cc)

  owned :
      (B : Builds) (c : TxCloudConfig)
      → account_of B.secrets B.timeout_of
          (S.new_credential c.secret_id c.secret_key)
          c.region
          (S.set_req_timeout 10 S.new_client_profile)
        ≡ own_account c
  owned B c =
      rw (B.new_credential_secrets c.secret_id c.secret_key)
        (rw (B.set_req_timeout_of 10 S.new_client_profile) refl)

  ready :
      (builder : S.ClientBuilder) (c : Cloud) (builds : Builds)
      → c.tx_config.region ≢ []
      → IsReady builds (initialize builder c)
  unfolding initialize
  ready builder c builds region = record {
    kube_client = (_, refl);
    cvm = let (k, e, own) = builds.cvm _ _ _ region in (k, e, own ∙ owned builds c.tx_config);
    tke = let (k, e, own) = builds.tke _ _ _ region in (k, e, own ∙ owned builds c.tx_config);
    clb = let (k, e, own) = builds.clb _ _ _ region in (k, e, own ∙ owned builds c.tx_config);
    cache = (
      _,
      refl,
      builds.new_ttl_store_lifetime _ _,
      λ item. builds.new_ttl_store_key _ _ (an_entry item),
    );
  }

trim_space-nil : trim_space [] ≡ []
unfolding trim_space
trim_space-nil = refl

not_blank : (s : String) → trim_space s ≢ [] → s ≢ []
not_blank s h e = h (ap trim_space e ∙ trim_space-nil)

-- For constructors that give a client for the credential, the region and the profile wherever the
-- region is not empty, and a store that keeps its entries for the time to live that it is given and
-- under the keys of the function that it is given, and a configuration that was decoded: if the
-- function that init registers returns a provider, then Initialize gives it a client for
-- Kubernetes, three clients that sign with the secret id and the secret key of its settings, send
-- to the region of its settings and wait ten seconds, and a cache whose store keeps its entries for
-- sixty seconds and finds an entry by its key; and the provider's settings are those of the
-- configuration, completed from the environment, none of them blank.
pub registered-IsReady :
    (S : Constructors) (getenv : String → String) (config : TxCloudConfig) (c : Cloud S)
    (builder : S.ClientBuilder) (builds : Builds S)
    → registered S getenv (some (value config)) ≡ value c
    → IsReady S builds (initialize S builder c)
      × ((initialize S builder c).tx_config ≡ fill_from_env getenv config)
      × IsComplete (initialize S builder c).tx_config
unfolding registered initialize
registered-IsReady S getenv config c builder builds e =
    let (accepted, _) = built-value S (new_cloud getenv (some (value config))) c e in
    let (same, complete) = (new_cloud_iff getenv config c.tx_config).0 accepted in
    let own : IsComplete c.tx_config = subst IsComplete (sym same) complete in
    (ready S builder c builds (not_blank _ own.region), same, own)
