-- ===== src/Program.antt =====
-- main.cpp: the dispatch on the arguments and the exit status. The parts that it calls are arguments;
-- a call that throws `FatalError` is `fatal`. The printed text is left out.
pub mod Status
use frehg.Prelude.{
  ℕ, zero, suc, Bool, true, false, ◌&&◌, ◌||◌, not, ◌==◌, ltb, if◌then◌else◌, List, [], ◌∷◌, length,
  Result, ok, fatal, ◌>>=◌, Text, text_eq,
}

abbrev pub validate_flag : Text
validate_flag = 45 ∷ 45 ∷ 118 ∷ 97 ∷ 108 ∷ 105 ∷ 100 ∷ 97 ∷ 116 ∷ 101 ∷ []

abbrev pub resolve_flag : Text
resolve_flag = 45 ∷ 45 ∷ 114 ∷ 101 ∷ 115 ∷ 111 ∷ 108 ∷ 118 ∷ 101 ∷ []

-- The parts: `PetscSession`, `validateConfigFile` (its errors), `loadConfig`, and the construction
-- and the run of a `Simulation` up to its final run record.
pub record Parts (E C : Type 0) : Type 0 where
  pub open_session : Result E (Unit {0})
  pub validate_config_file : Text → Result E (List Text)
  pub load_config : Text → Result E C
  pub simulate : C → Text → Result E (Unit {0})

-- How the process ends: with a status, or all ranks by `MPI_Abort` with 1.
pub data Outcome : Type 0 where
  exit : ℕ → Outcome
  abort : Outcome

abbrev pub first_is : Text → List Text → Bool
first_is flag [] = false
first_is flag (a ∷ args) = text_eq a flag

abbrev pub arg : ℕ → List Text → Text
arg n [] = []
arg zero (a ∷ args) = a
arg (suc n) (a ∷ args) = arg n args

module _ {E C : Type 0} (parts : Parts E C) where
  unfoldable pub run_validate : Text → Result E ℕ
  run_validate path = do
    errors ← parts.validate_config_file path
    if length errors == 0 then (parts.load_config path >>= λ c. ok 0) else ok 1

  unfoldable pub run_resolve : Text → Result E ℕ
  run_resolve path = parts.load_config path >>= λ c. ok 0

  unfoldable pub run_simulation : Text → Result E ℕ
  run_simulation path = do config ← parts.load_config path; done ← parts.simulate config path; ok 0

  abbrev pub is_malformed : List Text → Bool
  is_malformed args =
      length args == 0
      || ((first_is validate_flag args || first_is resolve_flag args) && not (length args == 2))

  unfoldable pub dispatch : List Text → Result E ℕ
  unfolding run_validate run_resolve run_simulation
  dispatch args = parts.open_session >>= λ session.
      if first_is validate_flag args
      then run_validate (arg 1 args)
      else if first_is resolve_flag args
      then run_resolve (arg 1 args)
      else run_simulation (arg 0 args)

  abbrev pub status_of : Bool → ℕ → Result E ℕ → Outcome
  status_of mpi_initialized ranks (ok status) = Outcome.exit status
  status_of mpi_initialized ranks (fatal e) =
      if mpi_initialized && ltb 1 ranks then Outcome.abort else Outcome.exit 1

  unfoldable pub main : Bool → ℕ → List Text → Outcome
  unfolding dispatch
  main mpi_initialized ranks args =
      if is_malformed args then Outcome.exit 2 else status_of mpi_initialized ranks (dispatch args)
