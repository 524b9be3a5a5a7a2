-- ===== src/Tests/Command.antt =====
-- The command over flags that are lists of names, where the controller manager cannot run.
use cloud_provider_tencent.Base.{
  ◌≡◌, ◌⊎◌, inl, inr, refl, sym, ap, ◌∙◌, arith, true, Bool-cases, Option, none, some, List, [],
  ◌∷◌, ◌++◌, map, String, string_eq, eq_refl, ◌==◌, contains, contains-append, if◌then◌else◌, Any,
  Any-mono,
}
use cloud_provider_tencent.Go.Strings.{bytes}
use cloud_provider_tencent.Go.Errors.{new}
use cloud_provider_tencent.Go.Exec.{value}
use cloud_provider_tencent.Command.{
  Manager, FlagLaws, Parsed, failed, helped, parsed, main, command_of,
}
use cloud_provider_tencent.Command.Endings.{Asked, Served, HasFailed, main_lem}

abbrev Flags : Type 0
Flags = List String

abbrev Sets : Type 0
Sets = List (String × Flags)

abbrev set_of : Sets → String → Flags
set_of [] name = []
set_of (s ∷ sets) name = if s.0 == name then s.1 else set_of sets name

abbrev in_set : String → (Flags → Flags) → Sets → Sets
in_set name f [] = (name, f []) ∷ []
in_set name f (s ∷ sets) = if s.0 == name then (s.0, f s.1) ∷ sets else s ∷ in_set name f sets

abbrev values_of : Flags → String → Option String
values_of flags name = if contains name flags then some (bytes "false") else none

abbrev broken : Manager
broken = record {
  Options = Unit {0};
  Config = Unit {0};
  FlagSet = Flags;
  NamedFlagSets = Sets;
  new_options = value tt;
  new_flags = bytes "help" ∷ [];
  named_flag_sets = λ s. (bytes "generic", bytes "kubeconfig" ∷ []) ∷ [];
  in_flag_set = in_set;
  flag_sets = map (λ (s : String × Flags). s.1);
  add_version_flags = λ fs. bytes "version" ∷ fs;
  add_global_flags = λ name fs. fs ++ (bytes "v" ∷ []);
  add_flag_set = λ fs gs. fs ++ gs;
  columns = 80;
  print_sections = λ sets cols. [];
  execute = λ s cmd. parsed s (values_of cmd.flags) none;
  config = λ s. value tt;
  run = λ c. some (new (bytes "no leader"));
  message = λ e. bytes "no leader";
}

in_set-set_of :
    (name : String) (f : Flags → Flags) (sets : Sets)
    → set_of (in_set name f sets) name ≡ f (set_of sets name)
in_set-set_of name f [] = rw (eq_refl name) refl
in_set-set_of name f (s ∷ sets) = elim (Bool-cases (s.0 == name)) [
  | inl same ↦ rw same (rw same refl)
  | inr other ↦ rw other (rw other (in_set-set_of name f sets))
]

changed-Any :
    (name : String) (f : Flags → Flags) (sets : Sets)
    → Any (λ fs. fs ≡ f (set_of sets name)) (map (λ (s : String × Flags). s.1) (in_set name f sets))
changed-Any name f [] = inl refl
changed-Any name f (s ∷ sets) = elim (Bool-cases (s.0 == name)) [
  | inl same ↦ rw same (inl refl)
  | inr other ↦ rw other (inr (changed-Any name f sets))
]

in_set-Any :
    (name : String) (f : Flags → Flags) (sets : Sets)
    → Any
        (λ fs. fs ≡ set_of (in_set name f sets) name)
        (map (λ (s : String × Flags). s.1) (in_set name f sets))
in_set-Any name f sets =
    Any-mono _ _ _ (λ fs e. e ∙ sym (in_set-set_of name f sets)) (changed-Any name f sets)

either_has :
    (flag : String) (fs gs : Flags)
    → (contains flag fs ≡ true) ⊎ (contains flag gs ≡ true)
    → contains flag (fs ++ gs) ≡ true
either_has flag fs gs h = ground (arith, contains-append flag fs gs, h)

values_in : Parsed (Unit {0}) → String → Option String
values_in (failed text) name = none
values_in (helped text) name = none
values_in (parsed s values requested) name = values name

given :
    (flags : Flags) (s t : Unit {0}) (values : String → Option String) (requested : Option String)
    (flag : String)
    → parsed s (values_of flags) none ≡ parsed t values requested
    → contains flag flags ≡ true
    → (v : String) × (values flag ≡ some v)
unfolding values_in
given flags s t values requested flag e h =
    (bytes "false", ap (λ p. values_in p flag) (sym e) ∙ rw h refl)

broken-FlagLaws : FlagLaws broken
unfolding contains
broken-FlagLaws = record {
  has = λ flag fs. contains flag fs;
  set_of = set_of;
  in_flag_set_set = in_set-set_of;
  in_flag_set_there = in_set-Any;
  add_version_flags_has = λ fs. rw (eq_refl (bytes "version")) refl;
  add_global_flags_keeps = λ command flag fs h. either_has flag fs (bytes "v" ∷ []) (inl h);
  add_flag_set_has = λ flag fs gs h. either_has flag fs gs h;
  execute_keeps =
      λ s t cmd values requested flag e h. given cmd.flags s t values requested flag e h;
}

main_lem_example :
    ((s : Unit {0}) × (broken.new_options ≡ value s)
      × ((main broken (bytes "v1")).status ≡ 0)
      × (Asked broken (broken.execute s (command_of broken s))
          ⊎ Served broken (broken.execute s (command_of broken s))))
    ⊎ HasFailed (main broken (bytes "v1"))
main_lem_example = main_lem broken broken-FlagLaws (bytes "v1")
