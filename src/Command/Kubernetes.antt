-- ===== src/Command/Kubernetes.antt =====
-- cmd/tencent-cloud-controller-manager/main.go: what the command takes from cobra, from the flags of
-- Kubernetes and from its controller manager, which are parameters.
use cloud_provider_tencent.Base.{ℕ, ◌≡◌, ◌⊎◌, Bool, true, Option, some, List, String, Any}
use cloud_provider_tencent.Go.Strings.{bytes}
use cloud_provider_tencent.Go.Errors.{Error}
use cloud_provider_tencent.Go.Exec.{Result}

-- What cmd.Execute makes of the arguments, before it calls Run: an error in the usage, with what
-- cobra writes of it, the help, or the options as the flags set them, the value of each flag that
-- the command has, and the text that verflag was asked to print.
pub data Parsed (Options : Type 0) : Type 0 where
  failed : String → Parsed Options
  helped : String → Parsed Options
  parsed : Options → (String → Option String) → Option String → Parsed Options

-- A cobra.Command, less the function Run. The functions for the usage and for the help write their
-- text for the line that cmd.UseLine gives.
pub record CobraCommand (FlagSet : Type 0) : Type 0 where
  pub use_name : String
  pub long : String
  pub flags : FlagSet
  pub usage_func : String → String
  pub help_func : String → String

pub record Manager : Type 1 where
  pub Options : Type 0
  pub Config : Type 0
  pub FlagSet : Type 0
  pub NamedFlagSets : Type 0
  -- options.NewCloudControllerManagerOptions
  pub new_options : Result Options
  -- cmd.Flags, of a new command
  pub new_flags : FlagSet
  -- s.Flags, for the known controllers
  pub named_flag_sets : Options → NamedFlagSets
  -- what becomes of the sets where a call changes the one that FlagSet gives for a name
  pub in_flag_set : String → (FlagSet → FlagSet) → NamedFlagSets → NamedFlagSets
  -- the values of the map FlagSets, in the order in which they are ranged over
  pub flag_sets : NamedFlagSets → List FlagSet
  -- verflag.AddFlags
  pub add_version_flags : FlagSet → FlagSet
  -- globalflag.AddGlobalFlags
  pub add_global_flags : String → FlagSet → FlagSet
  -- fs.AddFlagSet
  pub add_flag_set : FlagSet → FlagSet → FlagSet
  -- the columns of term.TerminalSize
  pub columns : ℕ
  -- what cliflag.PrintSections writes
  pub print_sections : NamedFlagSets → ℕ → String
  -- cmd.Execute, as far as it goes without Run
  pub execute : Options → CobraCommand FlagSet → Parsed Options
  -- s.Config, for the known controllers
  pub config : Options → Result Config
  -- app.Run on the completed configuration, with a channel that never stops it
  pub run : Config → Option Error
  -- the text of an error
  pub message : Error → String

-- What is documented of the flags: a set keeps its flags when others are added, verflag adds the flag
-- `version`, a set is among the named ones once it was asked for, and cmd.Execute drops no flag.
pub record FlagLaws (M : Manager) : Type 0 where
  pub has : String → M.FlagSet → Bool
  -- the set of a name
  pub set_of : M.NamedFlagSets → String → M.FlagSet
  pub in_flag_set_set :
      (name : String) (f : M.FlagSet → M.FlagSet) (n : M.NamedFlagSets)
      → set_of (M.in_flag_set name f n) name ≡ f (set_of n name)
  pub in_flag_set_there :
      (name : String) (f : M.FlagSet → M.FlagSet) (n : M.NamedFlagSets)
      → Any (λ fs. fs ≡ set_of (M.in_flag_set name f n) name) (M.flag_sets (M.in_flag_set name f n))
  pub add_version_flags_has :
      (fs : M.FlagSet) → has (bytes "version") (M.add_version_flags fs) ≡ true
  pub add_global_flags_keeps :
      (command flag : String) (fs : M.FlagSet)
      → has flag fs ≡ true
      → has flag (M.add_global_flags command fs) ≡ true
  pub add_flag_set_has :
      (flag : String) (fs gs : M.FlagSet)
      → (has flag fs ≡ true) ⊎ (has flag gs ≡ true)
      → has flag (M.add_flag_set fs gs) ≡ true
  pub execute_keeps :
      (s t : M.Options) (cmd : CobraCommand M.FlagSet) (values : String → Option String)
      (requested : Option String) (flag : String)
      → M.execute s cmd ≡ parsed t values requested
      → has flag cmd.flags ≡ true
      → (value : String) × (values flag ≡ some value)
