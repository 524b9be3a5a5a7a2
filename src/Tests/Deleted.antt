-- ===== src/Tests/Deleted.antt =====
-- EnsureLoadBalancerDeleted, at the service of `Data`.
use cloud_provider_tencent.Base.{
  ◌≡◌, refl, pos, ap, not, Bool, fun_ext, arith, [], ◌∷◌, ◌++◌, String, string_eq, string_beq,
  int_beq, ◌==◌, contains, keep,
}
use cloud_provider_tencent.Go.Strings.{bytes}
use cloud_provider_tencent.Go.Exec.{ok, err, panic, pure, raise, attempt, ◌>>=◌}
use cloud_provider_tencent.Sdk.{LoadBalancer}
use cloud_provider_tencent.Sdk.Env.{call}
use cloud_provider_tencent.Cache
use cloud_provider_tencent.LoadBalancer.Lookup.{
  cache_name_pre_clb, full_name, shorten, as_load_balancer, get_load_balancer_name,
  get_load_balancer,
}
use cloud_provider_tencent.LoadBalancer.Task.{
  not_expected, get_tencent_cloud_api_task_status, on_status, wait_rounds, wait_api_task_done,
}
use cloud_provider_tencent.LoadBalancer.Instance.{after_delete, delete_found, delete_load_balancer}
use cloud_provider_tencent.LoadBalancer.Instance.Matching.{name_of}
use cloud_provider_tencent.LoadBalancer.Instance.Stale.{Cached, get_load_balancer-Cached}
use cloud_provider_tencent.LoadBalancer.Instance.Laws.{DeletionLaws}
use cloud_provider_tencent.LoadBalancer.Instance.Created.{search}
use cloud_provider_tencent.LoadBalancer.Service.{
  delete_unless_missing, ensure_load_balancer_deleted,
}
use cloud_provider_tencent.LoadBalancer.Service.Deleted.{
  ensure_load_balancer_deleted-found_by, ensure_load_balancer_deleted_panics,
}
use cloud_provider_tencent.Tests.Fake.{Fake, fake, none_failed_at}
use cloud_provider_tencent.Tests.Data.{settings, web, balancer, start}
use cloud_provider_tencent.Tests.Listeners.{uid_long}
use cloud_provider_tencent.Tests.Again.{fake-Lasts}
use cloud_provider_tencent.Tests.Instance.{fake-BalancerLaws}

contains-one :
    (id : String) (b : LoadBalancer)
    → not (contains b.load_balancer_id (id ∷ [])) ≡ not (b.load_balancer_id == id)
unfolding contains
contains-one id b = ground arith

fake-DeletionLaws : DeletionLaws fake fake-BalancerLaws
fake-DeletionLaws = record {
  deletes = λ id w task q e.
      ap (λ (p : LoadBalancer → Bool). keep p w.balancers) (fun_ext λ b. contains-one id b);
}

-- There is another balancer beside the one of the service.
abbrev other : LoadBalancer
other = record balancer { load_balancer_id = bytes "lb2"; load_balancer_name = bytes "c_d_api" }

abbrev both : Fake
both = record start { balancers = balancer ∷ other ∷ [] }

Cached-both : Cached fake (name_of fake settings web) balancer both
unfolding string_beq bytes full_name
Cached-both = refl

ran_both : (ensure_load_balancer_deleted fake settings web both).0 ≡ ok tt
unfolding ensure_load_balancer_deleted delete_unless_missing delete_load_balancer delete_found
    after_delete get_load_balancer_name shorten full_name get_load_balancer as_load_balancer
    Cache.get attempt call wait_api_task_done wait_rounds get_tencent_cloud_api_task_status
    on_status pure string_beq int_beq bytes ◌>>=◌
ran_both = refl

status_both : (ensure_load_balancer_deleted fake settings web both).1.status ≡ pos 0
unfolding ensure_load_balancer_deleted delete_unless_missing delete_load_balancer delete_found
    after_delete get_load_balancer_name shorten full_name get_load_balancer as_load_balancer
    Cache.get attempt call wait_api_task_done wait_rounds get_tencent_cloud_api_task_status
    on_status pure string_beq int_beq bytes ◌>>=◌
status_both = refl

ensure_load_balancer_deleted-found_by_example :
    (ensure_load_balancer_deleted fake settings web both).1.balancers
    ≡ keep (λ b. not (b.load_balancer_id == bytes "lb1")) (balancer ∷ other ∷ [])
ensure_load_balancer_deleted-found_by_example =
    ensure_load_balancer_deleted-found_by fake settings fake-BalancerLaws fake-DeletionLaws web
      balancer both both (search fake settings fake-BalancerLaws web) uid_long
      (fake-Lasts (cache_name_pre_clb ++ name_of fake settings web))
      (get_load_balancer-Cached fake settings (name_of fake settings web) balancer web both
        Cached-both)
      ran_both (none_failed_at (ensure_load_balancer_deleted fake settings web both).1 status_both)

-- The task answers a status that the program does not expect.
abbrev odd : Fake
odd = record both { status = pos 3 }

Cached-odd : Cached fake (name_of fake settings web) balancer odd
unfolding string_beq bytes full_name
Cached-odd = refl

failed_odd :
    (wait_api_task_done fake (bytes "task") (fake.delete_load_balancer (bytes "lb1" ∷ []) odd).1).0
    ≡ err (not_expected (bytes "task") (pos 3))
unfolding call wait_api_task_done wait_rounds get_tencent_cloud_api_task_status on_status raise
    int_beq ◌>>=◌
failed_odd = refl

ensure_load_balancer_deleted_panics_example :
    (ensure_load_balancer_deleted fake settings web odd).0 ≡ panic
ensure_load_balancer_deleted_panics_example =
    ensure_load_balancer_deleted_panics fake settings web balancer (bytes "task")
      (not_expected (bytes "task") (pos 3)) odd odd uid_long
      (fake-Lasts (cache_name_pre_clb ++ name_of fake settings web))
      (get_load_balancer-Cached fake settings (name_of fake settings web) balancer web odd
        Cached-odd)
      refl failed_odd
