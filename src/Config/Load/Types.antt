-- ===== src/Config/Load/Types.antt =====
-- Values that stand in a file or in the document, in core/Config.hpp and core/Config.cpp.
use Prim.Native.String.{String}
use frehg.Prelude.{Result, ok, ◌>>=◌, if◌then◌else◌, Bool, true, false, Double}
use frehg.Config.Document.{Node, Reader, is_defined, sub, sub2}
use frehg.Config.Load.{YamlError, as_text, as_real}

pub record FileOrConstant (R : Type 0) : Type 0 where
  pub from_file : Bool
  pub file : String
  pub constant : R

pub record SeriesOrConstant (R : Type 0) : Type 0 where
  pub from_series : Bool
  pub file : String
  pub constant : R

module _ {R : Type 0} (double : Double R) (reader : Reader R) where
  abbrev pub no_file : FileOrConstant R
  no_file = record { from_file = false; file = ""; constant = double.of_int 0 }

  abbrev pub no_series : SeriesOrConstant R
  no_series = record { from_series = false; file = ""; constant = double.of_int 0 }

  abbrev pub extract_file_or_constant : Node → Result YamlError (FileOrConstant R)
  extract_file_or_constant node =
      if is_defined (sub node "file")
      then (as_text (sub node "file") >>= λ file.
          ok (record { from_file = true; file = file; constant = double.of_int 0 }))
      else (as_real double reader (sub node "constant") >>= λ constant.
          ok (record { from_file = false; file = ""; constant = constant }))

  abbrev pub extract_series_or_constant : Node → Result YamlError (SeriesOrConstant R)
  extract_series_or_constant node =
      if is_defined (sub node "series")
      then (as_text (sub2 node "series" "file") >>= λ file.
          ok (record { from_series = true; file = file; constant = double.of_int 0 }))
      else (as_real double reader (sub node "constant") >>= λ constant.
          ok (record { from_series = false; file = ""; constant = constant }))
