-- ===== src/Tests/Again.antt =====
-- The search for a balancer asked twice, at the service of `Data`.
use cloud_provider_tencent.Base.{◌≡◌, refl, eq_refl, ◌++◌, string_eq, string_beq, String}
use cloud_provider_tencent.Go.Strings.{bytes}
use cloud_provider_tencent.Go.Exec.{ok}
use cloud_provider_tencent.Sdk.{CacheValue}
use cloud_provider_tencent.LoadBalancer.Lookup.{cache_name_pre_clb, full_name, get_load_balancer}
use cloud_provider_tencent.LoadBalancer.Lookup.Again.{Remembers, Lasts, get_load_balancer_again}
use cloud_provider_tencent.LoadBalancer.Instance.Matching.{name_of}
use cloud_provider_tencent.LoadBalancer.Instance.Stale.{get_load_balancer-Cached}
use cloud_provider_tencent.Tests.Fake.{Fake, fake, with_entry}
use cloud_provider_tencent.Tests.Data.{settings, web, balancer, start}

just_added :
    (key : String) (value : CacheValue) (w : Fake)
    → Remembers fake key value (with_entry (record { key = key; value = value }) w)
just_added key value w = (record { key = key; value = value }, rw (eq_refl key) refl, refl)

pub fake-Lasts : (key : String) → Lasts fake key
fake-Lasts key = record { added = λ value w. just_added key value w; again = λ value w h. h }

first_answer :
    get_load_balancer fake settings (name_of fake settings web) web start ≡ (ok balancer, start)
unfolding string_beq bytes full_name
first_answer =
    get_load_balancer-Cached fake settings (name_of fake settings web) balancer web start refl

get_load_balancer_again_example :
    get_load_balancer fake settings (name_of fake settings web) web start ≡ (ok balancer, start)
get_load_balancer_again_example =
    get_load_balancer_again fake settings (name_of fake settings web) web web balancer start start
      (fake-Lasts (cache_name_pre_clb ++ name_of fake settings web)) first_answer
