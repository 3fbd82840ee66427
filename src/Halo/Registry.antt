-- ===== src/Halo/Registry.antt =====
-- `HaloExchanger::add` and `ensureCapacity` of core/HaloExchanger.cpp: the registered fields, with
-- their extents, and the capacity of the buffers.
use frehg.Prelude.{
  ℕ, ◌+◌, ◌*◌, ◌≡◌, Bool, true, false, not, ◌&&◌, ◌||◌, ◌==◌, ltb, if◌then◌else◌, List, [], ◌∷◌,
  ◌++◌, ◌≤◌, Result, ok, require, ◌>>◌, Text, text_eq,
}
use frehg.Halo.Messages.{Direction, Extents, Field, flat, deep}
use frehg.Halo.Exchange.{Store, message_count}

pub data RegistryError : Type 0 where
  registered_twice : RegistryError
  wrong_extent : RegistryError

pub record Entry : Type 0 where
  pub name : Text
  pub is3d : Bool

pub record Registry : Type 0 where
  pub entries : List Entry
  pub capacity : Direction → ℕ

abbrev pub has_name : Text → List Entry → Bool
has_name name [] = false
has_name name (e ∷ entries) = text_eq e.name name || has_name name entries

-- The cells of a wide plane of the entry.
abbrev pub wide_count : Extents → Direction → Entry → ℕ
wide_count g Direction.west e = if e.is3d then g.ny_local * g.nz else g.ny_local
wide_count g Direction.east e = if e.is3d then g.ny_local * g.nz else g.ny_local
wide_count g Direction.south e = if e.is3d then (g.nx_local + 2) * g.nz else g.nx_local + 2
wide_count g Direction.north e = if e.is3d then (g.nx_local + 2) * g.nz else g.nx_local + 2

abbrev pub needed : Extents → Direction → List Entry → ℕ
needed g dir [] = 0
needed g dir (e ∷ entries) = wide_count g dir e + needed g dir entries

unfoldable pub ensure_capacity : Extents → Registry → Registry
ensure_capacity g s = record s {
  capacity = λ dir.
      if ltb (s.capacity dir) (needed g dir s.entries)
      then needed g dir s.entries
      else s.capacity dir;
}

unfoldable pub add_entry : Extents → Entry → Registry → Registry
unfolding ensure_capacity
add_entry g e s = ensure_capacity g (record s { entries = s.entries ++ e ∷ [] })

-- The two overloads, with the extents of the field.
unfoldable pub add_flat : Extents → Text → ℕ → ℕ → Registry → Result RegistryError Registry
unfolding add_entry
add_flat g name rows columns s = do
  require (not (has_name name s.entries)) RegistryError.registered_twice
  require (rows == g.ny_local + 2 && columns == g.nx_local + 2) RegistryError.wrong_extent
  ok (add_entry g (record { name = name; is3d = false }) s)

unfoldable pub add_deep : Extents → Text → ℕ → ℕ → ℕ → Registry → Result RegistryError Registry
unfolding add_entry
add_deep g name rows columns levels s = do
  require (not (has_name name s.entries)) RegistryError.registered_twice
  require (rows == g.ny_local + 2 && (columns == g.nx_local + 2 && levels == g.nz))
      RegistryError.wrong_extent
  ok (add_entry g (record { name = name; is3d = true }) s)

-- No two entries have a name in common.
abbrev pub Distinct : List Entry → Type 0
Distinct [] = Unit
Distinct (e ∷ entries) = (has_name e.name entries ≡ false) × Distinct entries

abbrev pub is_deep : {W : Type 0} → Field W → Bool
is_deep (flat f) = false
is_deep (deep f) = true

-- Indices of entries, each at most once and in their order, of which `i` is the first; their fields
-- in the store have the entries' number of dimensions.
pub data Picked {W : Type 0} (store : Store W) : ℕ → List Entry → List ℕ → Type 0 where
  nothing : {i : ℕ} → Picked store i [] []
  passed_over :
      {i : ℕ} {e : Entry} {entries : List Entry} {selected : List ℕ}
      → Picked store (i + 1) entries selected
      → Picked store i (e ∷ entries) selected
  picked :
      {i : ℕ} {e : Entry} {entries : List Entry} {selected : List ℕ}
      → is_deep (store i) ≡ e.is3d
      → Picked store (i + 1) entries selected
      → Picked store i (e ∷ entries) (i ∷ selected)

-- What registering an entry leaves.
abbrev pub Registered : Extents → Text → Bool → Registry → Registry → Type 1
Registered g name is3d s t =
    Distinct t.entries
    × (t.entries ≡ s.entries ++ record { name = name; is3d = is3d } ∷ [])
    × ((dir : Direction) → s.capacity dir ≤ t.capacity dir)
    × ((W : Type 0) (store : Store W) (selected : List ℕ) (dir : Direction) (wide_rows : Bool)
        → Picked store 0 t.entries selected
        → message_count g dir wide_rows store selected ≤ t.capacity dir)
