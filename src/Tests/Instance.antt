-- ===== src/Tests/Instance.antt =====
-- ensureLoadBalancerInstance, at the service of `Data`.
use cloud_provider_tencent.Base.{
  ap, ◌≡◌, refl, sym, none, some, [], ◌∷◌, ◌++◌, string_eq, string_beq, int_beq, ◌==◌, get, length,
  arith, ◌≤◌, pos, if◌then◌else◌,
}
use cloud_provider_tencent.Go.Strings.{bytes}
use cloud_provider_tencent.Go.Errors.{load_balancer_not_found, is_load_balancer_not_found}
use cloud_provider_tencent.Go.Exec.{ok, err, pure, raise, rethrow, attempt, ◌>>=◌, ◌>>◌}
use cloud_provider_tencent.Sdk.{LoadBalancer, CreateLoadBalancerRequest, load_balancer_value, reply}
use cloud_provider_tencent.Sdk.Env.{call}
use cloud_provider_tencent.Cache
use cloud_provider_tencent.LoadBalancer.Annotations.{desired_type, clb_load_balancer_type_private}
use cloud_provider_tencent.LoadBalancer.Lookup.{
  cache_name_pre_clb, full_name, shorten, as_load_balancer, only_one, get_load_balancer_name,
  get_load_balancer,
}
use cloud_provider_tencent.LoadBalancer.Task.{
  get_tencent_cloud_api_task_status, on_status, wait_rounds, wait_api_task_done,
}
use cloud_provider_tencent.LoadBalancer.Instance.{
  subnet_of, create_request, need_recreate, create_load_balancer, after_delete, delete_found,
  delete_load_balancer, recreate, ensure_found, ensure_load_balancer_instance,
}
use cloud_provider_tencent.LoadBalancer.Instance.Matching.{Matches, name_of}
use cloud_provider_tencent.LoadBalancer.Instance.Stale.{Cached, Unexpired}
use cloud_provider_tencent.LoadBalancer.Instance.Laws.{IsMadeFor, BalancerLaws, found_by}
use cloud_provider_tencent.LoadBalancer.Instance.Created.{
  search, after_search, ensure_load_balancer_instance_created,
}
use cloud_provider_tencent.LoadBalancer.Instance.Recreated.{
  OutlastsCreation, ensure_load_balancer_instance_stale,
}
use cloud_provider_tencent.Tests.Fake.{Fake, fake, made_balancer, fake_tasks, none_failed_at}
use cloud_provider_tencent.Tests.Data.{settings, web, balancer, world, name_key}

uid_long : 8 ≤ length web.uid
unfolding bytes
uid_long = omega arith

pub made-IsMadeFor : (r : CreateLoadBalancerRequest) → IsMadeFor r (made_balancer r)
made-IsMadeFor r = (refl, refl, λ subnet e. rw e refl)

pub reply_inj : {A : Type 0} {a b : A} → reply a ≡ reply b → a ≡ b
reply_inj e = cc

abbrev pub fake-BalancerLaws : BalancerLaws fake
fake-BalancerLaws = record {
  tasks = fake_tasks (λ w q. w.balancers);
  creates = λ r w task q e s. (made_balancer r, made-IsMadeFor r, refl);
  told = λ q w set e. sym (reply_inj e);
  store_get_by_key_all = λ key w q. refl;
}

missing :
    get_load_balancer fake settings (name_of fake settings web) web (world (pos 0))
    ≡ (err load_balancer_not_found, world (pos 0))
unfolding get_load_balancer Cache.get only_one call raise ◌>>=◌
missing = refl

nowhere :
    found_by fake-BalancerLaws (world (pos 0)) (search fake settings fake-BalancerLaws web) ≡ []
nowhere = refl

-- The world after the creation.
abbrev grown : Fake
grown = (ensure_load_balancer_instance fake settings web (world (pos 0))).1

created : (ensure_load_balancer_instance fake settings web (world (pos 0))).0 ≡ ok tt
unfolding ensure_load_balancer_instance ensure_found is_load_balancer_not_found create_load_balancer
    create_request desired_type get_load_balancer_name shorten full_name get_load_balancer Cache.get
    only_one call raise rethrow attempt wait_api_task_done wait_rounds
    get_tencent_cloud_api_task_status on_status get string_beq int_beq bytes ◌>>=◌
created = refl

status_created : (ensure_load_balancer_instance fake settings web (world (pos 0))).1.status ≡ pos 0
unfolding ensure_load_balancer_instance ensure_found is_load_balancer_not_found create_load_balancer
    create_request desired_type get_load_balancer_name shorten full_name get_load_balancer Cache.get
    only_one call raise rethrow attempt wait_api_task_done wait_rounds
    get_tencent_cloud_api_task_status on_status get string_beq int_beq bytes ◌>>=◌
status_created = refl

still_missed :
    (fake.store_get_by_key (cache_name_pre_clb ++ name_of fake settings web) grown).0 ≡ reply none
unfolding ensure_load_balancer_instance ensure_found is_load_balancer_not_found create_load_balancer
    create_request desired_type get_load_balancer_name shorten full_name get_load_balancer Cache.get
    only_one call raise rethrow attempt wait_api_task_done wait_rounds
    get_tencent_cloud_api_task_status on_status get string_beq int_beq bytes ◌>>=◌
still_missed = refl

ensure_load_balancer_instance_created_example :
    (lb : LoadBalancer) × Matches settings lb (desired_type web) (subnet_of web)
    × (get_load_balancer fake settings (name_of fake settings web) web grown
        ≡ (ok lb, after_search fake settings fake-BalancerLaws web lb grown))
    × (ensure_load_balancer_instance fake settings web grown
        ≡ (ok tt, after_search fake settings fake-BalancerLaws web lb grown))
ensure_load_balancer_instance_created_example =
    ensure_load_balancer_instance_created fake settings fake-BalancerLaws web (world (pos 0))
      (world (pos 0)) grown grown.balancers uid_long missing nowhere (ap (λ o. (o, grown)) created)
      (none_failed_at grown status_created) still_missed refl

-- A balancer of the other kind is cached for the service.
abbrev other : LoadBalancer
other = record balancer { load_balancer_type = clb_load_balancer_type_private }

abbrev mismatched : Fake
mismatched = record (world (pos 0)) {
  cached = λ key. if key == name_key then some (load_balancer_value other) else none;
  balancers = other ∷ [];
}

other_kind : ¬ (Matches settings other (desired_type web) (subnet_of web))
unfolding desired_type get string_beq bytes
other_kind (t, _) = ground arith

unexpired : Unexpired fake (name_of fake settings web) other
unexpired = record {
  across_get = λ w h. h;
  across_delete = λ ids w h. h;
  across_status = λ task w h. h;
  across_sleep = λ w h. h;
}

outlasts : OutlastsCreation fake (name_of fake settings web) other
outlasts r w h = h

Cached-other : Cached fake (name_of fake settings web) other mismatched
unfolding string_beq bytes full_name
Cached-other = refl

replaced : (ensure_load_balancer_instance fake settings web mismatched).0 ≡ ok tt
unfolding ensure_load_balancer_instance ensure_found need_recreate recreate delete_load_balancer
    delete_found after_delete create_load_balancer create_request desired_type
    get_load_balancer_name shorten full_name get_load_balancer as_load_balancer Cache.get call raise
    rethrow attempt wait_api_task_done wait_rounds get_tencent_cloud_api_task_status on_status get
    string_beq int_beq bytes pure ◌>>=◌
replaced = refl

ensure_load_balancer_instance_stale_example :
    let v = (ensure_load_balancer_instance fake settings web mismatched).1 in
    ((get_load_balancer fake settings (name_of fake settings web) web v).0 ≡ ok other)
    × (ensure_load_balancer_instance fake settings web v
        ≡ (delete_load_balancer fake settings web >> create_load_balancer fake settings web)
            (get_load_balancer fake settings (name_of fake settings web) web v).1)
ensure_load_balancer_instance_stale_example =
    ensure_load_balancer_instance_stale fake settings web other mismatched unexpired outlasts
      uid_long other_kind Cached-other replaced
