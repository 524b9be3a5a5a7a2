-- ===== src/Command/Endings.antt =====
-- cmd/tencent-cloud-controller-manager/main.go: the ways in which the command ends.
use cloud_provider_tencent.Base.{
  ◌≡◌, ◌⊎◌, inl, inr, refl, Option, none, some, String, string_eq, string_beq_iff, ◌==◌, Bool-cases,
}
use cloud_provider_tencent.Go.Strings.{bytes}
use cloud_provider_tencent.Go.Errors.{Error}
use cloud_provider_tencent.Go.Exec.{Result, value, error}
use cloud_provider_tencent.Command.{
  Manager, FlagLaws, Parsed, failed, helped, parsed, Ending, command_of, failure, after_run,
  after_config, run_with, run_command, after_execute, start_with, main,
}
use cloud_provider_tencent.Command.Flags.{command_of-has}

module _ (M : Manager) where
  -- The reasons for which the process can end with the status 0.
  abbrev pub Asked : Parsed M.Options → Type 0
  Asked p =
      ((text : String) × (p ≡ helped text))
      ⊎ ((s : M.Options) × (values : String → Option String) × (requested : Option String) × (p
            ≡ parsed s values requested)
          × ((values (bytes "version") ≡ some (bytes "true"))
              ⊎ ((text : String) × (requested ≡ some text))))

  abbrev pub Served : Parsed M.Options → Type 0
  Served p =
      (s : M.Options) × (values : String → Option String) × (p ≡ parsed s values none)
      × ((c : M.Config) × (M.config s ≡ value c) × (M.run c ≡ none))

abbrev pub HasFailed : Ending → Type 0
HasFailed e = (e.status ≡ 1) ⊎ (e.status ≡ 255)

module _ (M : Manager) (K : FlagLaws M) (version : String) where
  abbrev Explained : Parsed M.Options → Ending → Type 0
  Explained p e = ((e.status ≡ 0) × (Asked M p ⊎ Served M p)) ⊎ HasFailed e

  -- What Run ends with, once no version was asked for.
  abbrev Ran : M.Options → Ending → Type 0
  Ran s e =
      ((e.status ≡ 0) × ((c : M.Config) × (M.config s ≡ value c) × (M.run c ≡ none))) ⊎ HasFailed e

  after_run-Ran :
      (s : M.Options) (c : M.Config) (o : Option Error)
      → M.config s ≡ value c
      → M.run c ≡ o
      → Ran s (after_run M o)
  unfolding after_run failure
  after_run-Ran s c none k r = inl (refl, (c, k, r))
  after_run-Ran s c (some e) k r = inr (inl refl)

  after_config-Ran :
      (s : M.Options) (r : Result M.Config) → M.config s ≡ r → Ran s (after_config M r)
  unfolding after_config failure
  after_config-Ran s (value c) k = after_run-Ran s c (M.run c) k refl
  after_config-Ran s (error e) k = inr (inl refl)

  run_with-Explained :
      (p : Parsed M.Options) (s : M.Options) (values : String → Option String) (flag : String)
      (requested : Option String)
      → p ≡ parsed s values requested
      → values (bytes "version") ≡ some flag
      → Explained p (run_with M version s flag requested)
  unfolding run_with
  run_with-Explained p s values flag (some text) k v = elim (Bool-cases (flag == bytes "true")) [
    | inl version_asked ↦
        rw version_asked (inl (refl, inl (inr (s, values, some text, k, inr (text, refl)))))
    | inr other ↦ rw other (inl (refl, inl (inr (s, values, some text, k, inr (text, refl)))))
  ]
  run_with-Explained p s values flag none k v = elim (Bool-cases (flag == bytes "true")) [
    | inl version_asked ↦ rw version_asked (
        inl (
          refl,
          inl (
              inr (
                s,
                values,
                none,
                k,
                inl (rw (← (string_beq_iff flag (bytes "true")).0 version_asked) v),
              )),
        ))
    | inr other ↦ rw other (elim (after_config-Ran s (M.config s) refl) [
      | inl (zero_status, ran) ↦ inl (zero_status, inr (s, values, k, ran))
      | inr h ↦ inr h
    ])
  ]

  -- The flag `version` is there when Run looks it up.
  after_execute-Explained :
      (s : M.Options) (p : Parsed M.Options)
      → M.execute s (command_of M s) ≡ p
      → Explained p (after_execute M version p)
  unfolding after_execute run_command
  after_execute-Explained s (failed text) k = inr (inl refl)
  after_execute-Explained s (helped text) k = inl (refl, inl (inl (text, refl)))
  after_execute-Explained s (parsed t values requested) k =
      let (flag, there) =
        K.execute_keeps s t (command_of M s) values requested (bytes "version") k
          (command_of-has M K s) in
      rw there (run_with-Explained _ t values flag requested refl there)

  start_with-Explained :
      (r : Result M.Options)
      → M.new_options ≡ r
      → ((s : M.Options) × (M.new_options ≡ value s)
          × ((start_with M version r).status ≡ 0)
          × (Asked M (M.execute s (command_of M s)) ⊎ Served M (M.execute s (command_of M s))))
        ⊎ HasFailed (start_with M version r)
  unfolding start_with
  start_with-Explained (error e) k = inr (inr refl)
  start_with-Explained (value s) k =
      elim (after_execute-Explained s (M.execute s (command_of M s)) refl) [
        | inl (zero_status, why) ↦ inl (s, k, zero_status, why)
        | inr h ↦ inr h
      ]

-- For flags that behave as documented, the command does not panic: it ends with the status 0, 1 or
-- 255, and with 0 only where its options could be made and either the help or a version was asked
-- for, or no version was, the configuration that the flags give was accepted and the controller
-- manager ran and returned no error.
pub main_lem :
    (M : Manager) (K : FlagLaws M) (version : String)
    → ((s : M.Options) × (M.new_options ≡ value s)
        × ((main M version).status ≡ 0)
        × (Asked M (M.execute s (command_of M s)) ⊎ Served M (M.execute s (command_of M s))))
      ⊎ HasFailed (main M version)
unfolding main
main_lem M K version = start_with-Explained M K version M.new_options refl
