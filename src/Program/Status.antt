-- ===== src/Program/Status.antt =====
-- The exit status of main.cpp.
use frehg.Prelude.{ℕ, ◌<◌, ◌≡◌, arith, ◌⊎◌, ◌↔◌, Bool, true, false, List, [], ok, fatal, Text}
use frehg.Program.{
  Parts, Outcome, first_is, arg, validate_flag, resolve_flag, is_malformed, run_validate,
  run_resolve, run_simulation, dispatch, main,
}

module _ {E C : Type 0} (parts : Parts E C) where
  -- The dispatch succeeds: the session opens, and what the arguments ask for goes through, which
  -- for `--validate` means that no error is reported and the file then loads.
  abbrev pub Succeeds : List Text → Type 0
  Succeeds args =
      (parts.open_session ≡ ok tt)
      × (((first_is validate_flag args ≡ true)
            × (parts.validate_config_file (arg 1 args) ≡ ok [])
            × ((c : C) × (parts.load_config (arg 1 args) ≡ ok c)))
          ⊎ ((first_is validate_flag args ≡ false)
              × (first_is resolve_flag args ≡ true)
              × ((c : C) × (parts.load_config (arg 1 args) ≡ ok c)))
          ⊎ ((first_is validate_flag args ≡ false)
              × (first_is resolve_flag args ≡ false)
              × ((c : C) × (parts.load_config (arg 0 args) ≡ ok c)
                  × (parts.simulate c (arg 0 args) ≡ ok tt))))

  main_there :
      (initialized : Bool) (ranks : ℕ) (args : List Text)
      → main parts initialized ranks args ≡ Outcome.exit 0
      → (is_malformed parts args ≡ false) × Succeeds args
  unfolding main dispatch run_validate run_resolve run_simulation
  main_there initialized ranks args h = ground arith

  main_back :
      (initialized : Bool) (ranks : ℕ) (args : List Text)
      → (is_malformed parts args ≡ false) × Succeeds args
      → main parts initialized ranks args ≡ Outcome.exit 0
  unfolding main dispatch run_validate run_resolve run_simulation
  main_back initialized ranks args h = ground arith

  -- The status is 0 exactly when the arguments are well formed and what they ask for succeeds, and 2
  -- exactly when they are malformed; a fatal error of several ranks aborts all of them.
  pub main_status :
      (initialized : Bool) (ranks : ℕ) (args : List Text)
      → (main parts initialized ranks args ≡ Outcome.exit 0
          ↔ ((is_malformed parts args ≡ false) × Succeeds args))
        × (main parts initialized ranks args ≡ Outcome.exit 2 ↔ is_malformed parts args ≡ true)
        × (main parts initialized ranks args ≡ Outcome.abort
            → (initialized ≡ true) × (1 < ranks) × ((e : E) × (dispatch parts args ≡ fatal e)))
  unfolding main dispatch run_validate run_resolve run_simulation
  main_status initialized ranks args =
      ((main_there initialized ranks args, main_back initialized ranks args), (bad, worse), gone)
    where
      bad : main parts initialized ranks args ≡ Outcome.exit 2 → is_malformed parts args ≡ true
      bad h = ground arith

      worse : is_malformed parts args ≡ true → main parts initialized ranks args ≡ Outcome.exit 2
      worse h = ground arith

      gone :
          main parts initialized ranks args ≡ Outcome.abort
          → (initialized ≡ true) × (1 < ranks) × ((e : E) × (dispatch parts args ≡ fatal e))
      gone h = ground arith
