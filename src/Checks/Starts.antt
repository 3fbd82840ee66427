-- ===== src/Checks/Starts.antt =====
-- main.cpp with a configuration that loads and one that does not.
use frehg.Prelude.{ℕ, ◌<◌, ◌≡◌, refl, ◌↔◌, true, false, [], ◌∷◌, ok, fatal, text_eq, if◌then◌else◌}
use frehg.Program.{
  Parts, Outcome, main, dispatch, run_simulation, run_validate, is_malformed, validate_flag,
}
use frehg.Program.Status.{Succeeds, main_status}

-- Only the file "a" is a valid configuration.
abbrev files : Parts ℕ ℕ
files = record {
  open_session = ok tt;
  validate_config_file = λ path. ok (if text_eq path (97 ∷ []) then [] else (98 ∷ []) ∷ []);
  load_config = λ path. if text_eq path (97 ∷ []) then ok 5 else fatal 7;
  simulate = λ c path. ok tt;
}

invalid : main files true 4 (validate_flag ∷ (98 ∷ []) ∷ []) ≡ Outcome.exit 1
unfolding main dispatch run_validate
invalid = refl

missing : main files true 4 ((98 ∷ []) ∷ []) ≡ Outcome.abort
unfolding main dispatch run_simulation
missing = refl

main_status_example :
    (main files true 4 (validate_flag ∷ (97 ∷ []) ∷ []) ≡ Outcome.exit 0 ↔ (
      (is_malformed files (validate_flag ∷ (97 ∷ []) ∷ []) ≡ false)
      × Succeeds files (validate_flag ∷ (97 ∷ []) ∷ [])))
    × (main files true 4 (validate_flag ∷ (97 ∷ []) ∷ []) ≡ Outcome.exit 2
        ↔ is_malformed files (validate_flag ∷ (97 ∷ []) ∷ []) ≡ true)
    × (main files true 4 (validate_flag ∷ (97 ∷ []) ∷ []) ≡ Outcome.abort
        → (true ≡ true)
          × (1 < 4)
          × ((e : ℕ) × (dispatch files (validate_flag ∷ (97 ∷ []) ∷ []) ≡ fatal e)))
main_status_example = main_status files true 4 (validate_flag ∷ (97 ∷ []) ∷ [])
