-- ===== src/Command.antt =====
-- cmd/tencent-cloud-controller-manager/main.go: how the command gathers its flags, how it starts the
-- controller manager, and how it ends. What cobra, the flags and the controller manager of Kubernetes
-- do is a parameter.
mod Kubernetes
pub mod Flags
pub mod Endings
pub use Kubernetes.{Parsed, failed, helped, parsed, CobraCommand, Manager, FlagLaws}
use cloud_provider_tencent.Base.{
  ℕ, Option, none, some, List, [], ◌∷◌, ◌++◌, String, string_eq, ◌==◌, if◌then◌else◌,
}
use cloud_provider_tencent.Go.Strings.{bytes}
use cloud_provider_tencent.Go.Errors.{Error}
use cloud_provider_tencent.Go.Exec.{Result, value, error}

-- How the process ends: its exit status, and what it wrote to its output and its error stream, less
-- the headers of the log and the trace of a panic.
pub record Ending : Type 0 where
  pub status : ℕ
  pub out : String
  pub err : String

abbrev pub command_name : String
command_name = bytes "tencent-cloud-controller-manager"

abbrev pub command_long : String
command_long =
    bytes "The Tencent Cloud controller manager is a daemon that embeds\n"
    ++ bytes "the cloud specific control loops shipped with Kubernetes."

abbrev newline : String
newline = bytes "\n"

abbrev pub ended : ℕ → String → String → Ending
ended status out err = record { status = status; out = out; err = err }

module _ (M : Manager) where
  -- namedFlagSets, with the flags of verflag and the global ones
  unfoldable pub all_flag_sets : M.Options → M.NamedFlagSets
  all_flag_sets s =
      M.in_flag_set (bytes "global") (M.add_global_flags command_name)
        (M.in_flag_set (bytes "global") M.add_version_flags (M.named_flag_sets s))

  -- The loop that adds the named sets to the flags of the command.
  unfoldable pub add_flag_sets : M.FlagSet → List M.FlagSet → M.FlagSet
  add_flag_sets fs [] = fs
  add_flag_sets fs (f ∷ sets) = add_flag_sets (M.add_flag_set fs f) sets

  -- usageFmt
  abbrev pub usage : String → String
  usage use_line = bytes "Usage:\n  " ++ (use_line ++ newline)

  -- The functions of SetUsageFunc and SetHelpFunc.
  unfoldable pub usage_func : M.NamedFlagSets → String → String
  usage_func sets use_line = usage use_line ++ M.print_sections sets M.columns

  unfoldable pub help_func : M.NamedFlagSets → String → String
  help_func sets use_line =
      command_long ++ (bytes "\n\n" ++ (usage use_line ++ M.print_sections sets M.columns))

  -- cmd, as it stands when it is executed
  unfoldable pub command_of : M.Options → CobraCommand M.FlagSet
  command_of s = record {
    use_name = command_name;
    long = command_long;
    flags = add_flag_sets M.new_flags (M.flag_sets (all_flag_sets s));
    usage_func = usage_func (all_flag_sets s);
    help_func = help_func (all_flag_sets s);
  }

  -- fmt.Fprintf(os.Stderr, "%v\n", err); os.Exit(1)
  unfoldable pub failure : Error → Ending
  failure e = ended 1 [] (M.message e ++ newline)

  -- A nil pointer is followed.
  abbrev pub nil_dereference : Ending
  nil_dereference =
      ended 2 [] (bytes "panic: runtime error: invalid memory address or nil pointer dereference\n")

  unfoldable pub after_run : Option Error → Ending
  after_run none = ended 0 [] []
  after_run (some e) = failure e

  unfoldable pub after_config : Result M.Config → Ending
  after_config (value c) = after_run (M.run c)
  after_config (error e) = failure e

  module _ (version : String) where
    -- What Run does with the flag `version`.
    unfoldable pub run_with : M.Options → String → Option String → Ending
    run_with s version_flag (some text) =
        if version_flag == bytes "true"
        then ended 0 (command_name ++ (bytes " version: " ++ (version ++ newline))) []
        else ended 0 text []
    run_with s version_flag none =
        if version_flag == bytes "true"
        then ended 0 (command_name ++ (bytes " version: " ++ (version ++ newline))) []
        else after_config (M.config s)

    -- The function Run of the command: Lookup gives nil for a flag that is not there.
    unfoldable pub run_command : M.Options → Option String → Option String → Ending
    run_command s none requested = nil_dereference
    run_command s (some version_flag) requested = run_with s version_flag requested

    unfoldable pub after_execute : Parsed M.Options → Ending
    after_execute (failed text) = ended 1 [] text
    after_execute (helped text) = ended 0 text []
    after_execute (parsed s values requested) = run_command s (values (bytes "version")) requested

    -- main. klog.Fatalf ends the process with the status 255.
    unfoldable pub start_with : Result M.Options → Ending
    start_with (error e) =
        ended 255 [] (bytes "unable to initialize command options: " ++ M.message e)
    start_with (value s) = after_execute (M.execute s (command_of s))

    unfoldable pub main : Ending
    main = start_with M.new_options
