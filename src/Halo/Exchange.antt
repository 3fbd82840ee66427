-- ===== src/Halo/Exchange.antt =====
-- `HaloExchanger::exchangeSelected` of core/HaloExchanger.cpp, on all ranks at once. What the
-- registered fields of a rank hold is a store from the entry's index to the field. A message goes
-- where its destination and its tag meet a posted receive; `none` is a receive that no message of
-- its length meets, so that `MPI_Waitall` does not return.
pub mod Buffers
pub mod Delivery
pub mod Opposites
pub mod Refreshed
use Prim.Native.Nat.{bit_xor}
use frehg.Prelude.{
  ℕ, ◌+◌, Bool, true, false, ◌&&◌, ◌==◌, if◌then◌else◌, Option, none, some, List, [], ◌∷◌,
}
use frehg.Halo.Messages.{Direction, Extents, Field, plane_count, pack_entry, unpack_entry}

abbrev pub Store : Type 0 → Type 0
Store W = ℕ → Field W

-- kWest, kEast, kSouth, kNorth
abbrev pub number : Direction → ℕ
number Direction.west = 0
number Direction.east = 1
number Direction.south = 2
number Direction.north = 3

abbrev pub all_directions : List Direction
all_directions = Direction.west ∷ Direction.east ∷ Direction.south ∷ Direction.north ∷ []

abbrev pub x_directions : List Direction
x_directions = Direction.west ∷ Direction.east ∷ []

abbrev pub y_directions : List Direction
y_directions = Direction.south ∷ Direction.north ∷ []

-- What the ranks know of one another.
pub record Mesh : Type 0 where
  pub ranks : ℕ
  pub extents : ℕ → Extents
  pub neighbour : ℕ → Direction → Option ℕ

module _ {W : Type 0} where
  unfoldable pub message_count : Extents → Direction → Bool → Store W → List ℕ → ℕ
  unfolding plane_count
  message_count e dir wide_rows store [] = 0
  message_count e dir wide_rows store (idx ∷ selected) =
      plane_count e (store idx) dir wide_rows + message_count e dir wide_rows store selected

  pub pack_all : Extents → Direction → Bool → Store W → List ℕ → ℕ → (ℕ → W) → ℕ → W
  unfolding pack_entry plane_count
  pack_all e dir wide_rows store [] offset buf = buf
  pack_all e dir wide_rows store (idx ∷ selected) offset buf =
      pack_all e dir wide_rows store selected (offset + plane_count e (store idx) dir wide_rows)
        (pack_entry e dir wide_rows (store idx) offset buf)

  abbrev pub put : ℕ → Field W → Store W → Store W
  put idx f store n = if n == idx then f else store n

  pub unpack_all : Extents → Direction → Bool → List ℕ → ℕ → (ℕ → W) → Store W → Store W
  unfolding unpack_entry plane_count
  unpack_all e dir wide_rows [] offset buf store = store
  unpack_all e dir wide_rows (idx ∷ selected) offset buf store =
      unpack_all e dir wide_rows selected (offset + plane_count e (store idx) dir wide_rows) buf
        (put idx (unpack_entry e dir wide_rows offset buf (store idx)) store)

  module _ (mesh : Mesh) (wide_rows : Bool) (selected : List ℕ) (old : ℕ → Direction → ℕ → W)
      (world : ℕ → Store W) where
    -- The message that rank `q` sends in a direction; `old` is what its buffer held before.
    pub message : ℕ → Direction → ℕ → W
    unfolding pack_all
    message q dir = pack_all (mesh.extents q) dir wide_rows (world q) selected 0 (old q dir)

    abbrev goes_to : ℕ → ℕ → Direction → Bool
    goes_to q r dir = elim (mesh.neighbour q dir) [ none ↦ false | some p ↦ p == r ]

    abbrev pub count : ℕ → Direction → ℕ
    count q dir = message_count (mesh.extents q) dir wide_rows (world q) selected

    -- The message of rank `q` that the receive of rank `r` from direction `dir` gets.
    pub deliver : List Direction → ℕ → ℕ → Direction → Option (ℕ → W)
    unfolding message message_count
    deliver [] q r dir = none
    deliver (d ∷ ds) q r dir =
        if goes_to q r d
          && 200 + bit_xor (number d) 1 == 200 + number dir
          && count q d == count r dir
        then some (message q d)
        else deliver ds q r dir

    -- The unpack loop of rank `r` over the directions; `dirs` are those of the exchange.
    pub receive : List Direction → List Direction → ℕ → Store W → Option (Store W)
    unfolding deliver unpack_all
    receive dirs [] r store = some store
    receive dirs (dir ∷ rest) r store = elim (mesh.neighbour r dir) [
      | none ↦ receive dirs rest r store
      | some q ↦ elim (deliver dirs q r dir) [
        | none ↦ none
        | some buf ↦
            receive dirs rest r (unpack_all (mesh.extents r) dir wide_rows selected 0 buf store)
      ]
    ]

    unfoldable pub exchange_selected : List Direction → ℕ → Option (Store W)
    unfolding receive
    exchange_selected dirs r = receive dirs dirs r (world r)
