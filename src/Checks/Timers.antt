-- ===== src/Checks/Timers.antt =====
-- core/Timer.cpp on a nest of scopes.
use frehg.Prelude.{ℕ, ◌+◌, ◌≡◌, refl, [], ◌∷◌, none, ok, fatal, Text}
use frehg.Timer.{TimerState, TimerError, start, stop, count, path_below, close_frame}
use frehg.Timer.Nesting.{Scopes, run_scopes, scopes_at, run_scopes_lem}
use frehg.Checks.Numbers.{whole}

abbrev idle : TimerState ℕ
idle = record { sections = λ p. none; stack = [] }

-- "a" around "b" twice, then "a" alone.
abbrev nest : Scopes ℕ
nest =
    Scopes.scope (97 ∷ []) 0 9
      (Scopes.scope (98 ∷ []) 1 3 Scopes.done (Scopes.scope (98 ∷ []) 4 8 Scopes.done Scopes.done))
      (Scopes.scope (97 ∷ []) 10 11 Scopes.done Scopes.done)

inner_scopes : scopes_at whole (97 ∷ 47 ∷ 98 ∷ []) [] nest ≡ 2
unfolding scopes_at path_below
inner_scopes = refl

wrong_name : stop whole (98 ∷ []) 5 (start whole (97 ∷ []) 0 idle) ≡ fatal TimerError.not_innermost
unfolding start stop close_frame path_below
wrong_name = refl

run_scopes_lem_example :
    (out : TimerState ℕ) × (run_scopes whole nest idle ≡ ok out)
    × (out.stack ≡ [])
    × ((path : Text) → count whole path out ≡ count whole path idle + scopes_at whole path [] nest)
run_scopes_lem_example = run_scopes_lem whole nest idle
