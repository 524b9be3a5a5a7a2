-- ===== src/Go/Strings.antt =====
-- Package strings, on strings as lists of bytes.
use Prim.Native.Char.{code}
use Prim.Native.String
use cloud_provider_tencent.Base.{
  ℕ, zero, suc, Bool, true, false, Option, none, some, List, [], ◌∷◌, reverse, String, ltb, eqb,
  length, if◌then◌else◌,
}

-- The bytes of an ASCII literal.
unfoldable pub bytes : String.String → String
bytes String.[] = []
bytes (String.◌∷◌ c s) = code c ∷ bytes s

-- s < t, byte by byte.
unfoldable pub less : String → String → Bool
less [] [] = false
less [] (_ ∷ _) = true
less (_ ∷ _) [] = false
less (x ∷ s) (y ∷ t) = if ltb x y then true else if ltb y x then false else less s t

-- What is left of `s` behind the prefix `p`.
unfoldable pub cut_prefix : String → String → Option String
cut_prefix s [] = some s
cut_prefix [] (_ ∷ _) = none
cut_prefix (x ∷ s) (y ∷ p) = if eqb x y then cut_prefix s p else none

-- strings.TrimPrefix
unfoldable pub trim_prefix : String → String → String
unfolding cut_prefix
trim_prefix s p = elim (cut_prefix s p) [ some t ↦ t | none ↦ s ]

abbrev onto_first : ℕ → List String → List String
onto_first x [] = (x ∷ []) ∷ []
onto_first x (s ∷ parts) = (x ∷ s) ∷ parts

-- strings.Split at a separator of one byte.
unfoldable pub split : String → ℕ → List String
split [] sep = [] ∷ []
split (x ∷ s) sep = let rest = split s sep in if eqb x sep then [] ∷ rest else onto_first x rest

-- The UTF-8 encodings of the code points that unicode.IsSpace accepts.
abbrev spaces : List String
spaces =
    (9 ∷ [])
    ∷ (10 ∷ [])
    ∷ (11 ∷ [])
    ∷ (12 ∷ [])
    ∷ (13 ∷ [])
    ∷ (32 ∷ [])
    ∷ (0xc2 ∷ 0x85 ∷ [])
    ∷ (0xc2 ∷ 0xa0 ∷ [])
    ∷ (0xe1 ∷ 0x9a ∷ 0x80 ∷ [])
    ∷ (0xe2 ∷ 0x80 ∷ 0x80 ∷ [])
    ∷ (0xe2 ∷ 0x80 ∷ 0x81 ∷ [])
    ∷ (0xe2 ∷ 0x80 ∷ 0x82 ∷ [])
    ∷ (0xe2 ∷ 0x80 ∷ 0x83 ∷ [])
    ∷ (0xe2 ∷ 0x80 ∷ 0x84 ∷ [])
    ∷ (0xe2 ∷ 0x80 ∷ 0x85 ∷ [])
    ∷ (0xe2 ∷ 0x80 ∷ 0x86 ∷ [])
    ∷ (0xe2 ∷ 0x80 ∷ 0x87 ∷ [])
    ∷ (0xe2 ∷ 0x80 ∷ 0x88 ∷ [])
    ∷ (0xe2 ∷ 0x80 ∷ 0x89 ∷ [])
    ∷ (0xe2 ∷ 0x80 ∷ 0x8a ∷ [])
    ∷ (0xe2 ∷ 0x80 ∷ 0xa8 ∷ [])
    ∷ (0xe2 ∷ 0x80 ∷ 0xa9 ∷ [])
    ∷ (0xe2 ∷ 0x80 ∷ 0xaf ∷ [])
    ∷ (0xe2 ∷ 0x81 ∷ 0x9f ∷ [])
    ∷ (0xe3 ∷ 0x80 ∷ 0x80 ∷ [])
    ∷ []

map_reverse : List String → List String
map_reverse [] = []
map_reverse (s ∷ ss) = reverse s ∷ map_reverse ss

cut_any : List String → String → Option String
cut_any [] s = none
cut_any (p ∷ ps) s = elim (cut_prefix s p) [ some t ↦ some t | none ↦ cut_any ps s ]

-- Each round drops a byte at least, so the length of the string is fuel enough.
trim_left : ℕ → List String → String → String
trim_left zero ps s = s
trim_left (suc fuel) ps s = elim (cut_any ps s) [ none ↦ s | some t ↦ trim_left fuel ps t ]

-- strings.TrimSpace
unfoldable pub trim_space : String → String
unfolding trim_left cut_any cut_prefix map_reverse
trim_space s =
    let t = trim_left (length s) spaces s in
    reverse (trim_left (length t) (map_reverse spaces) (reverse t))
