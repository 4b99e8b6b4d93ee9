-- ===== src/Workload/Parsed.antt =====
-- What `parse_arguments` of proj02/src/workload_params.c returns, and when it ends the program.
use cs.Prelude.{
  ℕ, suc, ◌+◌, ◌<◌, ◌≡◌, ◌⊎◌, inl, inr, refl, List, [], ◌∷◌, length, Option, none, some, ◌==◌,
  if_both, arith, ok, exit, ◌>>=◌, Ends, Ends->>=, from_option,
}
use cs.WordCount.Text.{Word}
use cs.Workload.{
  wl_param_commandline, wl_param_file, WorkloadCommonParams, WorkloadCommandlineParams,
  ProcessParams, WorkloadParamStore, next_argument, parse_common_arguments,
  parse_commandline_arguments, read_processes, first_process, mode_letter, output_argument,
  parse_file_arguments, commandline_store, file_store, parse_arguments,
}
use cs.Workload.FileFormat.{read_processes-Ends}
use cs.Workload.Options.{Takes, parse_commandline_arguments-Ends, parse_common_arguments-Ends}

-- The output file is named if an argument is left.
abbrev pub Named : ℕ → ℕ → Option Word → Type 0
Named argc used name =
    ((argc ≡ used) × (name ≡ none)) ⊎ ((used < argc) × (word : Word) × (name ≡ some word))

Named-output_argument :
    (argc used : ℕ) (rest : List Word)
    → length rest + used ≡ argc
    → Named argc used (output_argument rest)
Named-output_argument argc used [] e = inl (omega arith, refl)
Named-output_argument argc used (name ∷ rest) e = inr (omega arith, name, refl)

-- What is set in each of the modes, of so many arguments in all.
abbrev pub IsParsed : ℕ → WorkloadParamStore → Type 0
IsParsed argc store =
    ((store.param_mode ≡ wl_param_commandline)
      × (params : WorkloadCommandlineParams) × (store.commandline_params ≡ some params)
      × (store.file_params ≡ none)
      × Named argc 15 store.common_params.output_file_name)
    ⊎ ((store.param_mode ≡ wl_param_file)
        × (store.commandline_params ≡ none)
        × (process : ProcessParams) × (processes : List ProcessParams) × (store.file_params
            ≡ some (process ∷ processes))
        × Named argc 6 store.common_params.output_file_name)

module _ (open_file : Word → Option (List ℕ)) where
  -- What is read of a file.
  abbrev IsFileRead : ℕ → List ProcessParams × WorkloadCommonParams × List Word → Type 0
  IsFileRead n ([], common, rest) = ⊥
  IsFileRead n (process ∷ processes, common, rest) = length rest + 4 ≡ n

  parse_file_arguments-Ends :
      (args : List Word) → Ends (IsFileRead (length args)) (parse_file_arguments open_file args)
  unfolding parse_file_arguments
  parse_file_arguments-Ends args =
      Ends->>= (Takes 3 (length args)) (IsFileRead (length args)) (parse_common_arguments args) _
        (parse_common_arguments-Ends args) (λ (common, args1) e. named common args1 e)
    where
      opened :
          (common : WorkloadCommonParams) (rest : List Word) (file : List ℕ)
          → length rest + 4 ≡ length args
          → Ends (IsFileRead (length args)) (
              read_processes (suc (length file)) file >>= λ read.
              first_process read >>= λ processes. ok (processes, common, rest))
      opened common rest file e =
          Ends->>= (λ r. Unit {0}) (IsFileRead (length args))
            (read_processes (suc (length file)) file) _
            (read_processes-Ends (suc (length file)) file (omega arith))
            (λ read u.
              elim read
                as (λ r.
                  Ends (IsFileRead (length args))
                    (first_process r >>= λ processes. ok (processes, common, rest))) [
                      | [] ↦ tt
                      | process ∷ processes ↦ e
                    ])

      chosen :
          (common : WorkloadCommonParams) (rest : List Word) (found : Option (List ℕ))
          → length rest + 4 ≡ length args
          → Ends (IsFileRead (length args)) (
              from_option found (exit 1) >>= λ file.
              read_processes (suc (length file)) file >>= λ read.
              first_process read >>= λ processes. ok (processes, common, rest))
      chosen common rest none e = tt
      chosen common rest (some file) e = opened common rest file e

      named :
          (common : WorkloadCommonParams) (args1 : List Word)
          → length args1 + 3 ≡ length args
          → Ends (IsFileRead (length args)) (
              next_argument args1 >>= λ (name, rest).
              from_option (open_file name) (exit 1) >>= λ file.
              read_processes (suc (length file)) file >>= λ read.
              first_process read >>= λ processes. ok (processes, common, rest))
      named common [] e = tt
      named common (name ∷ rest) e = chosen common rest (open_file name) (omega arith)

  commandline_store-Ends :
      (args : List Word)
      → Ends (IsParsed (suc (suc (length args)))) (commandline_store open_file args)
  commandline_store-Ends args =
      Ends->>= (λ r. length r.2 + 13 ≡ length args) (IsParsed (suc (suc (length args))))
        (parse_commandline_arguments args) _ (parse_commandline_arguments-Ends args)
        (λ (params, common, rest) e.
          inl (refl, params, refl, refl, Named-output_argument _ 15 rest (omega arith)))

  file_store-Ends :
      (args : List Word) → Ends (IsParsed (suc (suc (length args)))) (file_store open_file args)
  file_store-Ends args =
      Ends->>= (IsFileRead (length args)) (IsParsed (suc (suc (length args))))
        (parse_file_arguments open_file args) _ (parse_file_arguments-Ends args) stored
    where
      stored :
          (read : List ProcessParams × WorkloadCommonParams × List Word)
          → IsFileRead (length args) read
          → IsParsed (suc (suc (length args))) (record {
            param_mode = wl_param_file;
            common_params = record read.1 { output_file_name = output_argument read.2 };
            commandline_params = none;
            file_params = some read.0;
          })
      stored ([], common, rest) h = absurd h
      stored (process ∷ processes, common, rest) h =
          inr (refl, refl, process, processes, refl, Named-output_argument _ 6 rest (omega arith))

  -- The arguments are read to an end, for any files. The program goes on only with at least 15 arguments, its
  -- name among them, in the mode of the command line, and at least 6 in the mode of a file, with at least
  -- one process in it; in both modes the output file is named exactly if there is one more argument. In all
  -- other cases it ends with a status, or is undefined.
  pub parse_arguments_lem :
      (args : List Word) → Ends (IsParsed (length args)) (parse_arguments open_file args)
  unfolding parse_arguments
  parse_arguments_lem [] = tt
  parse_arguments_lem (program ∷ []) = tt
  parse_arguments_lem (program ∷ mode ∷ args) =
      let P = Ends (IsParsed (suc (suc (length args)))) in
      if_both P (mode_letter mode == 67) (commandline_store open_file args) _
        (commandline_store-Ends args)
        (if_both P (mode_letter mode == 70) (file_store open_file args) (exit 1)
          (file_store-Ends args) tt)
