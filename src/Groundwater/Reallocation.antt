-- ===== src/Groundwater/Reallocation.antt =====
-- src/gw/Reallocate.cpp, the second phase of reallocateWaterContent: the sends of one column. A place
-- `to` of the source, which may be -1, stands here as the next one, `to + 1`.
pub mod Walks
use frehg.Prelude.{
  ℕ, zero, suc, ◌+◌, ◌-◌, ◌==◌, leb, if◌then◌else◌, for_range, Bool, true, false, ◌&&◌, ◌||◌,
  Double,
}

-- The fields of the column that the sends write, and the accumulators of the reduction.
pub record Column (R : Type 0) : Type 0 where
  pub room : ℕ → R
  pub wc : ℕ → R
  pub qz : ℕ → R
  pub path : ℕ → R
  pub eta : R
  pub dept : R
  pub avail : R
  pub gain : R
  pub vent_window : R
  pub lost : R
  pub vent : R

-- What the sends read.
pub record Setting (R : Type 0) : Type 0 where
  pub nz : ℕ
  pub active : ℕ → Bool
  pub send_up : ℕ → R
  pub send_down : ℕ → R
  pub dz : ℕ → R
  pub az : R
  pub dtg : R
  pub min_depth : R
  pub coupled : Bool
  pub top_is_head : Bool
  pub record_path : Bool

abbrev pub put : {R : Type 0} → (ℕ → R) → ℕ → R → ℕ → R
put f i v k = if k == i then v else f k

module _ {R : Type 0} (double : Double R) (s : Setting R) where
  abbrev pub nought : R
  nought = double.of_int 0

  -- The faces above the cells from the source's `to + 1` to `from`, or from `from + 1` to `to`.
  abbrev pub mark : ℕ → ℕ → R → (ℕ → R) → ℕ → R
  mark from to_next rate path =
      if leb to_next from
      then for_range (from + 1 - to_next) to_next (λ f p. put p f (double.add (p f) rate)) path
      else for_range (to_next - (from + 1)) (from + 1) (λ f p. put p f (double.sub (p f) rate)) path

  abbrev pub record_send : ℕ → ℕ → R → ℕ → R → (ℕ → R) → ℕ → R
  record_send from to_next volume face sign path =
      if s.record_path
      then (let rate = double.div volume s.dtg in
          mark from to_next rate (put path face (double.sub (path face) (double.mul sign rate))))
      else path

  abbrev pub one : R
  one = double.of_int 1

  abbrev pub no_send : R
  no_send = double.sub nought one

  -- What a cell with room takes of the volume.
  abbrev pub take : R → R → R
  take room volume = if double.lt volume room then volume else room

  abbrev pub fill : ℕ → R → Column R → Column R
  fill l t c = record c {
    wc = put c.wc l (double.add (c.wc l) (double.div t (double.mul s.az (s.dz l))));
    room = put c.room l (double.sub (c.room l) t);
  }

  -- A cell above takes its part.
  abbrev pub deposit_up : ℕ → ℕ → Column R → R → Column R × R
  deposit_up k l c volume =
      if double.lt nought (c.room l)
      then (let t = take (c.room l) volume in
          let filled = fill l t c in
          (
            record filled {
              qz = put c.qz (l + 1) (double.add (c.qz (l + 1)) (double.div t s.dtg));
              path = record_send k (l + 1) t (l + 1) one c.path;
            },
            double.sub volume t,
          ))
      else (c, volume)

  abbrev pub deposit_down : ℕ → ℕ → Column R → R → Column R × R
  deposit_down k l c volume =
      if double.lt nought (c.room l)
      then (let t = take (c.room l) volume in
          let filled = fill l t c in
          (
            record filled {
              qz = put c.qz l (double.sub (c.qz l) (double.div t s.dtg));
              path = record_send k (l + 1) t l no_send c.path;
            },
            double.sub volume t,
          ))
      else (c, volume)

  -- From the cell `l` upwards: the column, the rest of the volume, and the cell where it stops.
  unfoldable pub walk_up : ℕ → ℕ → Column R → R → Column R × R × ℕ
  walk_up k zero c volume = (c, volume, zero)
  walk_up k (suc l) c volume =
      let next = deposit_up k l c volume in
      let rest = walk_up k l next.0 next.1 in
      if s.active l && double.lt nought volume then rest else (c, volume, suc l)

  -- Through `n` cells from the cell `l` on, downwards.
  unfoldable pub walk_down : ℕ → ℕ → ℕ → Column R → R → Column R × R
  walk_down k zero l c volume = (c, volume)
  walk_down k (suc n) l c volume =
      let next = deposit_down k l c volume in
      let rest = walk_down k n (l + 1) next.0 next.1 in
      if double.lt nought volume then rest else (c, volume)

  abbrev pub lose : R → Column R → Column R
  lose volume c = record c { lost = double.sub c.lost volume }

  abbrev pub vent_to_surface : ℕ → ℕ → R → Column R → Column R
  vent_to_surface k l volume c =
      let d = double.div volume s.az in
      if double.lt nought c.dept || double.lt s.min_depth d
      then (record c {
        eta = double.add c.eta d;
        dept = double.add c.dept d;
        avail = double.add c.avail d;
        gain = double.add c.gain d;
        qz = put c.qz l (double.add (c.qz l) (double.div volume s.dtg));
        path = record_send k l volume l one c.path;
        vent_window = if s.record_path then double.add c.vent_window volume else c.vent_window;
        vent = double.add c.vent volume;
      })
      else lose volume c

  abbrev pub release : ℕ → ℕ → R → Column R → Column R
  release k l volume c = record c {
    qz = put c.qz l (double.add (c.qz l) (double.div volume s.dtg));
    path = record_send k l volume l one c.path;
  }

  abbrev pub return_down : ℕ → ℕ → R → Column R → Column R
  return_down k l volume c =
      let walked = walk_down k (s.nz - (l + 1)) (l + 1) c volume in lose walked.1 walked.0

  abbrev pub leave_top : ℕ → ℕ → R → Column R → Column R
  leave_top k l volume c =
      if s.coupled
      then vent_to_surface k l volume c
      else (if s.top_is_head then release k l volume c else return_down k l volume c)

  abbrev pub send_cell_up : ℕ → Column R → Column R
  send_cell_up k c =
      if double.lt nought (s.send_up k)
      then (let (walked, rest, l) = walk_up k k c (s.send_up k) in
          if double.lt nought rest then leave_top k l rest walked else walked)
      else c

  abbrev pub send_cell_down : ℕ → Column R → Column R
  send_cell_down k c =
      if double.lt nought (s.send_down k)
      then (let walked = walk_down k (s.nz - (k + 1)) (k + 1) c (s.send_down k) in
          lose walked.1 walked.0)
      else c

  abbrev pub send_cell : ℕ → Column R → Column R
  send_cell k c = if s.active k then send_cell_down k (send_cell_up k c) else c

  unfoldable pub send_column : Column R → Column R
  unfolding walk_up walk_down for_range
  send_column c = for_range s.nz 0 send_cell c
