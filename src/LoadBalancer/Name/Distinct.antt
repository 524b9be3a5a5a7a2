-- ===== src/LoadBalancer/Name/Distinct.antt =====
-- pkg/tencentcloud/tencentcloud_loadbalancer.go: which services share a name in getLoadBalancerName.
use cloud_provider_tencent.Go.Exec.Inversion.{same_outcome, ok_inj}
use cloud_provider_tencent.Base.{
  ℕ, ◌≤◌, ◌<◌, ◌≡◌, ◌≢◌, refl, sym, ap, ◌∙◌, [], ◌∷◌, ◌++◌, String, length, length-append,
  length-take, take, ltb, ltb→lt, arith, ◌⊎◌, true, false, Bool-cases, inl, inr, All,
}
use cloud_provider_tencent.Go.Strings.{bytes}
use cloud_provider_tencent.Sdk.{Service}
use cloud_provider_tencent.Sdk.Env.{Env}
use cloud_provider_tencent.Cloud.{TxCloudConfig}
use cloud_provider_tencent.LoadBalancer.Lookup.{full_name, get_load_balancer_name}
use cloud_provider_tencent.LoadBalancer.Name.{short_name, shorten_ok}

-- The byte of "_", and the strings without it.
abbrev pub underscore : ℕ
underscore = 95

abbrev pub HasNoUnderscore : String → Type 0
HasNoUnderscore s = All (λ c. c ≢ underscore) s

cons_inj : {x y : ℕ} {xs ys : String} → x ∷ xs ≡ y ∷ ys → (x ≡ y) × (xs ≡ ys)
cons_inj e = (cc, cc)

append_cancel : (p xs ys : String) → p ++ xs ≡ p ++ ys → xs ≡ ys
append_cancel [] xs ys e = e
append_cancel (c ∷ p) xs ys e = append_cancel p xs ys ((cons_inj e).1)

-- Two strings are cut at the same place where it is known by its length, or by the first underscore.
append_halves :
    (us bs xs ys : String) → length us ≡ length bs → us ++ xs ≡ bs ++ ys → (us ≡ bs) × (xs ≡ ys)
append_halves [] [] xs ys l e = (refl, e)
append_halves [] (b ∷ bs) xs ys l e = absurd (omega (arith, l))
append_halves (a ∷ us) [] xs ys l e = absurd (omega (arith, l))
append_halves (a ∷ us) (b ∷ bs) xs ys l e =
    let (same, rest) = cons_inj e in
    let (halves, tails) = append_halves us bs xs ys (omega (arith, l)) rest in
    (ap (λ c. c ∷ us) same ∙ ap (λ cs. b ∷ cs) halves, tails)

underscore_halves :
    (us bs xs ys : String)
    → HasNoUnderscore us
    → HasNoUnderscore bs
    → us ++ (underscore ∷ xs) ≡ bs ++ (underscore ∷ ys)
    → (us ≡ bs) × (xs ≡ ys)
underscore_halves [] [] xs ys h k e = (refl, (cons_inj e).1)
underscore_halves [] (b ∷ bs) xs ys h (ne, k) e = absurd (ne (sym ((cons_inj e).0)))
underscore_halves (a ∷ us) [] xs ys (ne, h) k e = absurd (ne ((cons_inj e).0))
underscore_halves (a ∷ us) (b ∷ bs) xs ys (_, h) (_, k) e =
    let (same, rest) = cons_inj e in
    let (halves, tails) = underscore_halves us bs xs ys h k rest in
    (ap (λ c. c ∷ us) same ∙ ap (λ cs. b ∷ cs) halves, tails)

module _ (tx_config : TxCloudConfig) where
  abbrev pub IsLong : Service → Type 0
  IsLong s = 60 < length (full_name tx_config s)

  -- The ways in which two services can have one name.
  abbrev pub Same : Service → Service → Type 0
  Same s t = (s.namespace ≡ t.namespace) × (s.name ≡ t.name)

  abbrev pub CutAlike : Service → Service → Type 0
  CutAlike s t =
      IsLong s
      × IsLong t
      × (take 50 (full_name tx_config s) ≡ take 50 (full_name tx_config t))
      × (take 8 s.uid ≡ take 8 t.uid)

  abbrev pub CutOnto : Service → Service → Type 0
  CutOnto s t = IsLong s × (length (full_name tx_config t) ≡ 59)

  full_name-Same :
      (s t : Service)
      → HasNoUnderscore s.namespace
      → HasNoUnderscore t.namespace
      → full_name tx_config s ≡ full_name tx_config t
      → Same s t
  unfolding full_name bytes
  full_name-Same s t h k e =
      underscore_halves s.namespace t.namespace s.name t.name h k
        ((cons_inj (append_cancel tx_config.clb_name_prefix _ _ e)).1)

  cut_length :
      (s : Service)
      → IsLong s
      → 8 ≤ length s.uid
      → (length (take 50 (full_name tx_config s)) ≡ 50)
        × (length (take 50 (full_name tx_config s) ++ (bytes "_" ++ take 8 s.uid)) ≡ 59)
  unfolding bytes
  cut_length s long uid =
      let front = length-take 50 (full_name tx_config s) in
      (
        omega (arith, front, long),
        omega (
          arith,
          long,
          uid,
          front,
          length-take 8 s.uid,
          length-append (take 50 (full_name tx_config s)) (bytes "_" ++ take 8 s.uid),
        ),
      )

  cut-CutAlike :
      (s t : Service)
      → IsLong s
      → IsLong t
      → 8 ≤ length s.uid
      → 8 ≤ length t.uid
      → take 50 (full_name tx_config s) ++ (bytes "_" ++ take 8 s.uid)
        ≡ take 50 (full_name tx_config t) ++ (bytes "_" ++ take 8 t.uid)
      → CutAlike s t
  unfolding bytes
  cut-CutAlike s t long long' uid uid' e =
      let (front, rest) =
        append_halves (take 50 (full_name tx_config s)) (take 50 (full_name tx_config t)) _ _
          ((cut_length s long uid).0 ∙ sym ((cut_length t long' uid').0)) e in
      (long, long', front, (cons_inj rest).1)

  abbrev name_for : Service → String
  name_for s = short_name (full_name tx_config s) s.uid

  long_name :
      (s : Service)
      → ltb 60 (length (full_name tx_config s)) ≡ true
      → name_for s ≡ take 50 (full_name tx_config s) ++ (bytes "_" ++ take 8 s.uid)
  long_name s h = rw h refl

  whole_name :
      (s : Service)
      → ltb 60 (length (full_name tx_config s)) ≡ false
      → name_for s ≡ full_name tx_config s
  whole_name s h = rw h refl

  -- A whole name that is a cut one has its length.
  long_whole-CutOnto :
      (s t : Service)
      → ltb 60 (length (full_name tx_config s)) ≡ true
      → ltb 60 (length (full_name tx_config t)) ≡ false
      → 8 ≤ length s.uid
      → name_for s ≡ name_for t
      → CutOnto s t
  long_whole-CutOnto s t long whole uid e = (
    ltb→lt _ _ long,
    ap length (sym (whole_name t whole) ∙ sym e ∙ long_name s long)
        ∙ (cut_length s (ltb→lt _ _ long) uid).1,
  )

  short_name-shared :
      (s t : Service)
      → HasNoUnderscore s.namespace
      → HasNoUnderscore t.namespace
      → 8 ≤ length s.uid
      → 8 ≤ length t.uid
      → name_for s ≡ name_for t
      → Same s t ⊎ (CutAlike s t ⊎ (CutOnto s t ⊎ CutOnto t s))
  short_name-shared s t h k uid uid' e =
      elim (Bool-cases (ltb 60 (length (full_name tx_config s)))) [
        | inl long ↦ elim (Bool-cases (ltb 60 (length (full_name tx_config t)))) [
          | inl long' ↦ inr (
              inl (
                cut-CutAlike s t (ltb→lt _ _ long) (ltb→lt _ _ long') uid uid'
                  (sym (long_name s long) ∙ e ∙ long_name t long')))
          | inr whole ↦ inr (inr (inl (long_whole-CutOnto s t long whole uid e)))
        ]
        | inr whole ↦ elim (Bool-cases (ltb 60 (length (full_name tx_config t)))) [
          | inl long ↦ inr (inr (inr (long_whole-CutOnto t s long whole uid' (sym e))))
          | inr whole' ↦
              inl (full_name-Same s t h k (sym (whole_name s whole) ∙ e ∙ whole_name t whole'))
        ]
      ]

-- For two services whose uids have at least eight bytes and whose namespaces have no underscore:
-- where getLoadBalancerName gives both the same name, they have the same namespace and name, or the
-- full names of both have more than 60 bytes, the same first 50, and their uids the same first 8, or
-- one of the full names has more than 60 bytes and the other one exactly 59.
pub get_load_balancer_name-shared :
    (E : Env) (tx_config : TxCloudConfig) (s t : Service) (w : E.World)
    → HasNoUnderscore s.namespace
    → HasNoUnderscore t.namespace
    → 8 ≤ length s.uid
    → 8 ≤ length t.uid
    → (get_load_balancer_name E tx_config s w).0 ≡ (get_load_balancer_name E tx_config t w).0
    → Same tx_config s t
      ⊎ (CutAlike tx_config s t ⊎ (CutOnto tx_config s t ⊎ CutOnto tx_config t s))
unfolding get_load_balancer_name
get_load_balancer_name-shared E tx_config s t w h k uid uid' e =
    short_name-shared tx_config s t h k uid uid' (
      ok_inj (
        same_outcome (sym (shorten_ok (full_name tx_config s) s.uid w uid))
        ∙ e
        ∙ same_outcome (shorten_ok (full_name tx_config t) t.uid w uid')))
