-- ===== src/Paging/Parsing/Files.antt =====
-- The files and the arguments of proj03/src/params.c are read to an end.
use cs.Prelude.{
  ℕ, zero, suc, ◌≤◌, ◌<◌, ◌≡◌, ◌≢◌, ◌⊎◌, inl, inr, refl, sym, subst, List, [], ◌∷◌, length, Option,
  none, some, ◌==◌, if_true, if_false, Bool-cases, arith, Outcome, ok, exit, undefined, out_of_fuel,
  Ends, Ends->>=, ◌>>=◌, get_elem?, from_option,
}
use cs.Prelude.Int.{ℤ, pos}
use cs.WordCount.Text.{Word}
use cs.Arguments.{atoi}
use cs.Arguments.Parsed.{atoi-Ends}
use cs.Paging.Input.{InputMethod}
use cs.Paging.Parsing.{
  ParamStore, read_address, read_regions, read_addresses, first_link, argument,
  parse_input_virtual_regions, parse_input_virtual_addresses, parse_random_arguments,
  parse_file_arguments, parse_arguments,
}
use cs.Paging.Parsing.Scans.{read_addresses-Ends, read_regions-Ends}

-- There is something in it.
abbrev pub IsFilled : {A : Type 0} → List A → Type 0
IsFilled [] = ⊥
IsFilled (node ∷ nodes) = Unit

-- A call that ends has returned what it returns.
Ends-returned : {A : Type 0} (o : Outcome A) → Ends (λ a. Unit {0}) o → Ends (λ a. o ≡ ok a) o
Ends-returned (ok a) h = refl
Ends-returned (exit status) h = tt
Ends-returned undefined h = tt
Ends-returned out_of_fuel h = h

Ends-implies :
    {A : Type 0} {P Q : A → Type 0} (o : Outcome A) → Ends P o → ((a : A) → P a → Q a) → Ends Q o
Ends-implies (ok a) h k = k a h
Ends-implies (exit status) h k = tt
Ends-implies undefined h k = tt
Ends-implies out_of_fuel h k = h

-- A file is opened, or the program ends.
opened-Ends : (found : Option (List ℕ)) → Ends (λ f. found ≡ some f) (from_option found (exit 1))
opened-Ends none = tt
opened-Ends (some file) = refl

-- The argument of the index.
abbrev IsArgument : List Word → ℕ → Word → Type 0
IsArgument args i word = (i < length args) × (get_elem? args i ≡ some word)

argument-Ends : (args : List Word) (i : ℕ) → Ends (IsArgument args i) (argument args i)
argument-Ends [] i = tt
argument-Ends (arg ∷ args) zero = (omega arith, refl)
argument-Ends (arg ∷ args) (suc i) =
    Ends-implies (argument args i) (argument-Ends args i) (λ w (lt, at). (omega arith, at))

-- The argument of the index names a file that can be opened.
pub record IsOpened (open_file : Word → Option (List ℕ)) (args : List Word) (i : ℕ) : Type 0 where
  pub name : Word
  pub file : List ℕ
  pub given : get_elem? args i ≡ some name
  pub opens : open_file name ≡ some file

-- What is set in each of the modes.
abbrev pub IsParsed : (Word → Option (List ℕ)) → List Word → ParamStore → Type 0
IsParsed open_file args store =
    ((length args ≡ 9)
      × (store.input_method ≡ InputMethod.input_method_random)
      × (store.file_params ≡ none)
      × (past_end : ℤ) × (store.virtual_regions
          ≡ record { base = pos 0; past_end = past_end } ∷ []))
    ⊎ ((length args ≢ 9)
        × (7 ≤ length args)
        × (store.input_method ≡ InputMethod.input_method_file)
        × (regions : IsOpened open_file args 1) × (read_regions (suc (length regions.file))
              regions.file
            ≡ ok store.virtual_regions)
        × IsFilled store.virtual_regions
        × (virtual : IsOpened open_file args 2) × (addresses : List ℤ) × (read_addresses
              (suc (length virtual.file)) virtual.file
            ≡ ok addresses)
        × IsFilled addresses
        × (store.file_params ≡ some addresses)
        × (store.total_virtual_address_input_length ≡ pos (length addresses)))

module _ (open_file : Word → Option (List ℕ)) where
  -- What a file yields that is opened and read to its end.
  abbrev IsRead : {A : Type 0} → (ℕ → List ℕ → Outcome (List A)) → Word → List A → Type 0
  IsRead read fname nodes =
      (file : List ℕ) × (open_file fname ≡ some file)
      × (read (suc (length file)) file ≡ ok nodes)
      × IsFilled nodes

  file-Ends-of :
      {A : Type 0} (read : ℕ → List ℕ → Outcome (List A)) (fname : Word)
      → ((fuel : ℕ) (file : List ℕ) → length file < fuel → Ends (λ r. Unit {0}) (read fuel file))
      → Ends (IsRead read fname) (
          from_option (open_file fname) (exit 1) >>= λ file.
          read (suc (length file)) file >>= λ nodes. first_link nodes)
  file-Ends-of read fname ends =
      Ends->>= (λ file. open_file fname ≡ some file) (IsRead read fname)
        (from_option (open_file fname) (exit 1)) _ (opened-Ends (open_file fname))
        (λ file opens.
          Ends->>= (λ nodes. read (suc (length file)) file ≡ ok nodes) (IsRead read fname)
            (read (suc (length file)) file) _
            (Ends-returned (read (suc (length file)) file)
              (ends (suc (length file)) file (omega arith)))
            (λ nodes run. linked read fname file nodes opens run))
    where
      linked :
          {A : Type 0} (read : ℕ → List ℕ → Outcome (List A)) (fname : Word) (file : List ℕ)
          (nodes : List A)
          → open_file fname ≡ some file
          → read (suc (length file)) file ≡ ok nodes
          → Ends (IsRead read fname) (first_link nodes)
      linked read fname file [] opens run = tt
      linked read fname file (node ∷ nodes) opens run = (file, opens, run, tt)

  parse_input_virtual_regions-Ends :
      (fname : Word)
      → Ends (IsRead read_regions fname) (parse_input_virtual_regions open_file fname)
  unfolding parse_input_virtual_regions
  parse_input_virtual_regions-Ends fname = file-Ends-of read_regions fname read_regions-Ends

  parse_input_virtual_addresses-Ends :
      (fname : Word)
      → Ends (IsRead read_addresses fname) (parse_input_virtual_addresses open_file fname)
  unfolding parse_input_virtual_addresses
  parse_input_virtual_addresses-Ends fname = file-Ends-of read_addresses fname read_addresses-Ends

  random-Ends :
      (args : List Word)
      → length args ≡ 9
      → Ends (IsParsed open_file args) (parse_random_arguments open_file args)
  unfolding parse_random_arguments
  random-Ends args nine =
      let Q = IsParsed open_file args in
      Ends->>= (IsArgument args 1) Q (argument args 1) _ (argument-Ends args 1) (λ frames u.
        Ends->>= (λ n. Unit {0}) Q (atoi frames) _ (atoi-Ends frames)
          (λ num_of_frames u.
            Ends->>= (IsArgument args 2) Q (argument args 2) _ (argument-Ends args 2) (λ name u.
              Ends->>= (IsArgument args 4) Q (argument args 4) _ (argument-Ends args 4)
                (λ algorithm u.
                  Ends->>= (λ n. Unit {0}) Q (atoi algorithm) _ (atoi-Ends algorithm)
                    (λ replacement u.
                      Ends->>= (IsArgument args 6) Q (argument args 6) _ (argument-Ends args 6)
                        (λ past_end u.
                          Ends->>= (IsArgument args 8) Q (argument args 8) _ (argument-Ends args 8)
                            (λ total u.
                              Ends->>= (λ n. Unit {0}) Q (atoi total) _ (atoi-Ends total)
                                (λ count u.
                                  inl (nine, refl, refl, read_address past_end, refl)))))))))

  file-Ends :
      (args : List Word)
      → length args ≢ 9
      → Ends (IsParsed open_file args) (parse_file_arguments open_file args)
  unfolding parse_file_arguments
  file-Ends args not_nine =
      let Q = IsParsed open_file args in
      Ends->>= (IsArgument args 1) Q (argument args 1) _ (argument-Ends args 1) (λ name1 first.
        Ends->>= (IsRead read_regions name1) Q (parse_input_virtual_regions open_file name1) _
          (parse_input_virtual_regions-Ends name1)
          (λ regions (file1, opens1, run1, filled1).
            Ends->>= (IsArgument args 2) Q (argument args 2) _ (argument-Ends args 2)
              (λ name2 second.
                Ends->>= (IsRead read_addresses name2) Q
                  (parse_input_virtual_addresses open_file name2) _
                  (parse_input_virtual_addresses-Ends name2)
                  (λ addresses (file2, opens2, run2, filled2).
                    Ends->>= (IsArgument args 3) Q (argument args 3) _ (argument-Ends args 3)
                      (λ frames u.
                        Ends->>= (λ n. Unit {0}) Q (atoi frames) _ (atoi-Ends frames)
                          (λ num_of_frames u.
                            Ends->>= (IsArgument args 4) Q (argument args 4) _
                              (argument-Ends args 4)
                              (λ out u.
                                Ends->>= (IsArgument args 6) Q (argument args 6) _
                                  (argument-Ends args 6)
                                  (λ algorithm seven.
                                    Ends->>= (λ n. Unit {0}) Q (atoi algorithm) _
                                      (atoi-Ends algorithm)
                                      (λ replacement u. inr (
                                        not_nine,
                                        (let at = seven.0 in omega arith),
                                        refl,
                                        record {
                                          name = name1;
                                          file = file1;
                                          given = first.1;
                                          opens = opens1;
                                        },
                                        run1,
                                        filled1,
                                        record {
                                          name = name2;
                                          file = file2;
                                          given = second.1;
                                          opens = opens2;
                                        },
                                        addresses,
                                        run2,
                                        filled2,
                                        refl,
                                        refl,
                                      ))))))))))

  -- The arguments are read to an end, for any files. The program goes on in the random mode exactly for 9
  -- arguments, its name among them, with one region from 0 on; for any other number only from 7 arguments
  -- on, if the arguments 1 and 2 name files that can be opened, and then with the regions of the first
  -- file and the addresses of the second, at least one of each, and with the number of the addresses. In
  -- all other cases it ends with a status, or is undefined.
  pub parse_arguments_defined :
      (args : List Word) → Ends (IsParsed open_file args) (parse_arguments open_file args)
  unfolding parse_arguments
  parse_arguments_defined args = elim (Bool-cases (length args == 9)) [
    | inl nine ↦
        let e : length args ≡ 9 = ground arith in
        subst (Ends (IsParsed open_file args)) (sym (if_true _ _ _ _ nine refl))
          (random-Ends args e)
    | inr other ↦
        let e : length args ≢ 9 = ground arith in
        subst (Ends (IsParsed open_file args)) (sym (if_false _ _ _ _ other refl))
          (file-Ends args e)
  ]
