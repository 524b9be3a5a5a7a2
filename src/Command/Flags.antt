-- ===== src/Command/Flags.antt =====
-- cmd/tencent-cloud-controller-manager/main.go: the flags that the command has.
use cloud_provider_tencent.Base.{
  ◌≡◌, sym, subst, true, inl, inr, List, [], ◌∷◌, String, Any, Any-mono,
}
use cloud_provider_tencent.Go.Strings.{bytes}
use cloud_provider_tencent.Command.{
  Manager, FlagLaws, all_flag_sets, add_flag_sets, command_of, command_name,
}

module _ (M : Manager) (K : FlagLaws M) (flag : String) where
  add_flag_sets-keeps :
      (fs : M.FlagSet) (sets : List M.FlagSet)
      → K.has flag fs ≡ true
      → K.has flag (add_flag_sets M fs sets) ≡ true
  unfolding add_flag_sets
  add_flag_sets-keeps fs [] h = h
  add_flag_sets-keeps fs (f ∷ sets) h =
      add_flag_sets-keeps (M.add_flag_set fs f) sets (K.add_flag_set_has flag fs f (inl h))

  -- A flag of one of the sets is a flag of the command.
  add_flag_sets-has :
      (fs : M.FlagSet) (sets : List M.FlagSet)
      → Any (λ f. K.has flag f ≡ true) sets
      → K.has flag (add_flag_sets M fs sets) ≡ true
  unfolding add_flag_sets
  add_flag_sets-has fs [] a = elim a [ ]
  add_flag_sets-has fs (f ∷ sets) (inl h) =
      add_flag_sets-keeps (M.add_flag_set fs f) sets (K.add_flag_set_has flag fs f (inr h))
  add_flag_sets-has fs (f ∷ sets) (inr a) = add_flag_sets-has (M.add_flag_set fs f) sets a

-- The set `global` has the flag `version`, and is one of those that are added.
module _ (M : Manager) (K : FlagLaws M) (s : M.Options) where
  abbrev with_version : M.NamedFlagSets
  with_version = M.in_flag_set (bytes "global") M.add_version_flags (M.named_flag_sets s)

  global-has : K.has (bytes "version") (K.set_of (all_flag_sets M s) (bytes "global")) ≡ true
  unfolding all_flag_sets
  global-has =
      let second =
        K.in_flag_set_set (bytes "global") (M.add_global_flags command_name) with_version in
      let first = K.in_flag_set_set (bytes "global") M.add_version_flags (M.named_flag_sets s) in
      rw second (
        K.add_global_flags_keeps command_name (bytes "version") _
          (rw first (K.add_version_flags_has _)))

  pub command_of-has : K.has (bytes "version") (command_of M s).flags ≡ true
  unfolding command_of all_flag_sets
  command_of-has =
      add_flag_sets-has M K (bytes "version") M.new_flags (M.flag_sets (all_flag_sets M s)) (
        Any-mono _ _ (M.flag_sets (all_flag_sets M s))
          (λ f e. subst (λ g. K.has (bytes "version") g ≡ true) (sym e) global-has)
          (K.in_flag_set_there (bytes "global") (M.add_global_flags command_name) with_version))
