-- ===== src/Cache/Sure.antt =====
-- pkg/cache/cache.go, and the calls of the program: where they return no error.
use cloud_provider_tencent.Base.{◌≡◌, String}
use cloud_provider_tencent.Go.Exec.Sure.{Fine, Sure}
use cloud_provider_tencent.Sdk.{CacheValue, Answer, reply, fail}
use cloud_provider_tencent.Sdk.Env.{Env, call, outcome}
use cloud_provider_tencent.Cache

outcome-Fine : {A : Type 0} (a : Answer A) → (x : A) × (a ≡ reply x) → Fine (outcome a)
outcome-Fine (reply x) h = tt
outcome-Fine (fail e) (x, h) = cc

-- A call that is always answered.
pub call-Sure :
    {W A : Type 0} (c : W → Answer A × W)
    → ((w : W) → (x : A) × ((c w).0 ≡ reply x))
    → Sure (call c)
unfolding call
call-Sure c t = record { at = λ w. outcome-Fine (c w).0 (t w) }

module _ (E : Env) where
  pub get-Sure : (key : String) → Sure (Cache.get E key)
  unfolding Cache.get
  get-Sure key = record { at = λ w. tt }

  pub set-Sure : (key : String) (v : CacheValue) → Sure (Cache.set E key v)
  unfolding Cache.set
  set-Sure key v = record { at = λ w. tt }
