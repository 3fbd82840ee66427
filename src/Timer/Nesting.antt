-- ===== src/Timer/Nesting.antt =====
-- Sections that nest as `Timer::Scoped` of core/Timer.cpp makes them.
use frehg.Prelude.{
  ℕ, ◌+◌, ◌≡◌, refl, ◌∙◌, if◌then◌else◌, Option, none, some, List, ◌∷◌, Result, ok, Double, Text,
  text_eq, text_eq_self, text_eq→eq, ◌>>=◌, Bool-cases, inl, inr, arith,
}
use frehg.Timer.{
  TimerState, TimerError, ActiveFrame, start, stop, count, close_frame, Section, path_below,
  completed, or_default,
}

-- Scopes one after the other, each with its name, the clock at its start and end, and the scopes
-- inside.
pub data Scopes (R : Type 0) : Type 0 where
  done : Scopes R
  scope : Text → R → R → Scopes R → Scopes R → Scopes R

module _ {R : Type 0} (double : Double R) where
  -- The calls that the scopes make.
  unfoldable pub run_scopes : Scopes R → TimerState R → Result TimerError (TimerState R)
  run_scopes Scopes.done s = ok s
  run_scopes (Scopes.scope name began ended inside rest) s = do
    t ← run_scopes inside (start double name began s)
    u ← stop double name ended t
    run_scopes rest u

  -- How many of the scopes have a path, below a stack.
  unfoldable pub scopes_at : Text → List (ActiveFrame R) → Scopes R → ℕ
  scopes_at path stack Scopes.done = 0
  scopes_at path stack (Scopes.scope name began ended inside rest) =
      let frame : ActiveFrame R = record {
        name = name;
        path = path_below stack name;
        began = began;
      } in
      (if text_eq path (path_below stack name) then 1 else 0)
      + scopes_at path (frame ∷ stack) inside
      + scopes_at path stack rest

  stop_lem :
      (top : ActiveFrame R) (rest : List (ActiveFrame R)) (ended : R) (t : TimerState R)
      → t.stack ≡ top ∷ rest
      → (u : TimerState R) × (stop double top.name ended t ≡ ok u)
        × (u.stack ≡ rest)
        × ((path : Text)
            → count double path u ≡ count double path t + (if text_eq path top.path then 1 else 0))
  unfolding stop close_frame count completed
  stop_lem top rest ended t k = (out, rw (k, text_eq_self top.name) refl, refl, counted)
    where
      out : TimerState R
      out = record {
        sections = λ p.
            if text_eq p top.path
            then some (completed double top ended (t.sections top.path))
            else t.sections p;
        stack = rest;
      }

      counted :
          (path : Text)
          → count double path out ≡ count double path t + (if text_eq path top.path then 1 else 0)
      counted path = elim (Bool-cases (text_eq path top.path)) [
        | inl e ↦
            let same : path ≡ top.path = text_eq→eq path top.path e in
            rw (same, text_eq_self top.path, count) (from_default (t.sections top.path))
        | inr e ↦ rw (e, count) (omega arith)
      ]
        where
          from_default :
              (o : Option (Section R))
              → (or_default double o).cycles + 1 ≡ (elim o [ none ↦ 0 | some sec ↦ sec.cycles ]) + 1
          from_default none = refl
          from_default (some sec) = refl

  start_lem :
      (path name : Text) (now : R) (s : TimerState R)
      → count double path (start double name now s) ≡ count double path s
  unfolding count start
  start_lem path name now s = refl

  -- Scopes run without an error, leave the stack as they met it, and add to the count of each path
  -- the number of the scopes that have it.
  pub run_scopes_lem :
      (scopes : Scopes R) (s : TimerState R)
      → (out : TimerState R) × (run_scopes scopes s ≡ ok out)
        × (out.stack ≡ s.stack)
        × ((path : Text)
            → count double path out ≡ count double path s + scopes_at path s.stack scopes)
  unfolding run_scopes scopes_at start
  run_scopes_lem Scopes.done s = (s, refl, refl, λ p. omega arith)
  run_scopes_lem (Scopes.scope name began ended inside rest) s =
      let (t, et, kt, ct) = run_scopes_lem inside (start double name began s) in
      let frame : ActiveFrame R = record {
        name = name;
        path = path_below s.stack name;
        began = began;
      } in
      let (u, eu, ku, cu) = stop_lem frame s.stack ended t kt in
      let (out, eo, ko, co) = run_scopes_lem rest u in
      (
        out,
        rw (et, eu) eo,
        ko ∙ ku,
        λ path. omega (arith, ct path, cu path, rw ku at (co path), start_lem path name began s),
      )
