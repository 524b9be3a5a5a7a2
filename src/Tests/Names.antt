-- ===== src/Tests/Names.antt =====
-- Two services with long names, at the configuration of `Data`.
use cloud_provider_tencent.Base.{◌≡◌, ◌⊎◌, refl, arith, ◌++◌, String}
use cloud_provider_tencent.Go.Strings.{bytes}
use cloud_provider_tencent.Go.Exec.{pure}
use cloud_provider_tencent.Sdk.{Service}
use cloud_provider_tencent.LoadBalancer.Lookup.{full_name, shorten, get_load_balancer_name}
use cloud_provider_tencent.LoadBalancer.Name.Distinct.{
  HasNoUnderscore, Same, CutAlike, CutOnto, get_load_balancer_name-shared,
}
use cloud_provider_tencent.Tests.Fake.{fake}
use cloud_provider_tencent.Tests.Data.{settings, web, start}
use cloud_provider_tencent.Tests.Listeners.{uid_long}

-- A name of 60 bytes and more, so that its end is cut off.
abbrev named : String → Service
named end = record web {
  name = bytes "orders-of-the-shop-that-is-never-closed-and-never-sold-out" ++ end;
}

abbrev red : Service
red = named (bytes "-red")

abbrev blue : Service
blue = named (bytes "-blue")

no_underscore : HasNoUnderscore web.namespace
unfolding bytes
no_underscore = ((λ e. ground arith), tt)

shared :
    (get_load_balancer_name fake settings red start).0
    ≡ (get_load_balancer_name fake settings blue start).0
unfolding get_load_balancer_name shorten full_name bytes pure
shared = refl

get_load_balancer_name-shared_example :
    Same settings red blue
    ⊎ (CutAlike settings red blue ⊎ (CutOnto settings red blue ⊎ CutOnto settings blue red))
get_load_balancer_name-shared_example =
    get_load_balancer_name-shared fake settings red blue start no_underscore no_underscore uid_long
      uid_long shared
