-- ===== src/Timer.antt =====
-- `Timer` of core/Timer.cpp: the stack of active sections and the table of completed ones. The
-- clock's readings are arguments of the calls.
pub mod Nesting
use frehg.Prelude.{
  ℕ, ◌+◌, Bool, true, false, if◌then◌else◌, Option, none, some, List, [], ◌∷◌, ◌++◌, Result, ok,
  fatal, Double, Text, text_eq,
}

pub data TimerError : Type 0 where
  no_active_section : TimerError
  not_innermost : TimerError

pub record Section (R : Type 0) : Type 0 where
  pub seconds : R
  pub cycles : ℕ

pub record ActiveFrame (R : Type 0) : Type 0 where
  pub name : Text
  pub path : Text
  pub began : R

-- The innermost frame stands first.
pub record TimerState (R : Type 0) : Type 0 where
  pub sections : Text → Option (Section R)
  pub stack : List (ActiveFrame R)

-- The path of a section below the active one; 47 is "/".
unfoldable pub path_below : {R : Type 0} → List (ActiveFrame R) → Text → Text
path_below [] name = name
path_below (top ∷ rest) name = top.path ++ 47 ∷ name

module _ {R : Type 0} (double : Double R) where
  unfoldable pub start : Text → R → TimerState R → TimerState R
  start name now s = record s {
    stack = record { name = name; path = path_below s.stack name; began = now } ∷ s.stack;
  }

  -- `sections[path]` makes a missing entry with the defaults 0.0 and 0.
  abbrev pub or_default : Option (Section R) → Section R
  or_default none = record { seconds = double.of_int 0; cycles = 0 }
  or_default (some s) = s

  unfoldable pub completed : ActiveFrame R → R → Option (Section R) → Section R
  completed top now o =
      let sec = or_default o in
      record {
        seconds = double.add sec.seconds (double.sub now top.began);
        cycles = sec.cycles + 1;
      }

  unfoldable pub close_frame :
      Text
      → R
      → (Text → Option (Section R))
      → List (ActiveFrame R)
      → Result TimerError (TimerState R)
  close_frame name now sections [] = fatal TimerError.no_active_section
  close_frame name now sections (top ∷ rest) =
      if text_eq top.name name
      then ok (record {
        sections = λ p.
            if text_eq p top.path then some (completed top now (sections top.path)) else sections p;
        stack = rest;
      })
      else fatal TimerError.not_innermost

  unfoldable pub stop : Text → R → TimerState R → Result TimerError (TimerState R)
  unfolding close_frame
  stop name now s = close_frame name now s.sections s.stack

  unfoldable pub elapsed : Text → TimerState R → R
  elapsed path s = elim (s.sections path) [ none ↦ double.of_int 0 | some sec ↦ sec.seconds ]

  unfoldable pub count : Text → TimerState R → ℕ
  count path s = elim (s.sections path) [ none ↦ 0 | some sec ↦ sec.cycles ]

  unfoldable pub reset : TimerState R → TimerState R
  reset s = record { sections = λ p. none; stack = [] }
