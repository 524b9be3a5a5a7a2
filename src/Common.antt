-- ===== src/Common.antt =====
-- pkg/tencentcloud/common.go
use cloud_provider_tencent.Base.{
  ℕ, zero, suc, ◌≡◌, ◌∙◌, Bool, false, List, [], ◌∷◌, arith, String, string_eq, contains, ltb,
  length, get_elem?, if◌then◌else◌,
}
use cloud_provider_tencent.Go.Sort.{search_strings, sort_strings}
use cloud_provider_tencent.Go.Sort.Order.{IsSorted, sort_strings-IsSorted, contains-sort_strings}
use cloud_provider_tencent.Go.Sort.Search.{is_at, is_at-below, search_strings-below}

-- isExist
unfoldable pub is_exist : String → List String → Bool
is_exist target str_array =
    let index = search_strings str_array target in
    if ltb index (length str_array) then is_at (get_elem? str_array index) target else false

is_at_bounded :
    (xs : List String) (i : ℕ) (x : String)
    → (if ltb i (length xs) then is_at (get_elem? xs i) x else false) ≡ is_at (get_elem? xs i) x
is_at_bounded [] i x = ground arith
is_at_bounded (y ∷ ys) zero x = ground arith
is_at_bounded (y ∷ ys) (suc i) x = ground (arith, is_at_bounded ys i x)

-- In a sorted array the binary search finds a string exactly when it is there.
is_exist-contains :
    (target : String) (xs : List String) → IsSorted xs → is_exist target xs ≡ contains target xs
unfolding is_exist
is_exist-contains target xs s =
    is_at_bounded xs (search_strings xs target) target
    ∙ rw (search_strings-below target xs s) (is_at-below target xs s)

-- Behind sort.Strings, as every caller has it, isExist is membership in the unsorted list.
pub is_exist-sort_strings :
    (target : String) (xs : List String) → is_exist target (sort_strings xs) ≡ contains target xs
is_exist-sort_strings target xs =
    is_exist-contains target (sort_strings xs) (sort_strings-IsSorted xs)
    ∙ contains-sort_strings target xs
