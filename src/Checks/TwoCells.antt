-- ===== src/Checks/TwoCells.antt =====
-- A surface flow on a domain of two cells, of one rank: the eastern cell has a prescribed stage.
use mathlib.Core.Int.{ℤ, pos, suc_ℤ}
use mathlib.Core.Nat
use frehg.Prelude.{ℕ, ◌-◌, ◌==◌, true, false, if◌then◌else◌, Option, none, some, [], is_owned}
use frehg.Grid.Layout.{place}
use frehg.Surface.State.{Field2, Settings, Surface}
use frehg.Surface.System.{Coo}
use frehg.Surface.Momentum.{Elementary}
use frehg.Surface.Step.{Exchanger}
use frehg.Checks.Integers.{integers}

abbrev pub z : ℤ
z = pos Nat.zero

abbrev pub one : ℤ
one = suc_ℤ z

abbrev pub two : ℤ
two = suc_ℤ one

abbrev pub settings : Settings ℤ
settings = record {
  layout = place 2 1 1 1 0;
  nx = 2;
  ny = 1;
  dx = one;
  dy = one;
  dt = one;
  gravity = one;
  visc_x = z;
  visc_y = z;
  min_depth = z;
  wetting_face_depth = z;
  thin_layer_depth = z;
  chezy = true;
  wind_enabled = false;
  wind_attenuation = z;
  bulk_evaporation = false;
}

abbrev pub all : ℤ → Field2 ℤ
all x j i = x

-- The eastern cell alone.
abbrev pub east : ℤ → Field2 ℤ
east x j i = if i == 2 then x else z

abbrev pub surface : Surface ℤ
surface = record {
  rain = z;
  evap = z;
  wind_speed = z;
  wind_omega = z;
  wind_cd = z;
  offset = z;
  eta = all two;
  etan = all two;
  dept = all two;
  deptx = all two;
  depty = all two;
  bottom = all z;
  uu = all one;
  vv = all z;
  uy = all z;
  vx = all z;
  ex = all z;
  ey = all z;
  drag_x = all one;
  drag_y = all one;
  cd_x = all z;
  cd_y = all z;
  vs = all one;
  vsx = all one;
  vsy = all one;
  asx = all two;
  asy = all z;
  asz = all one;
  aszx = all one;
  aszy = all one;
  fu = all z;
  fv = all z;
  cflx = all z;
  cfly = all z;
  cfl_active = all z;
  sxp = all z;
  sxm = all z;
  syp = all z;
  sym_leg = all z;
  sct = all z;
  srhs = all two;
  eta_bc_value = east two;
  is_eta_bc = east one;
  rain_mask = all one;
  evap_mask = all one;
  friction_coef = all one;
  eta_bcs = [];
  discharge_bcs = [];
  velocity_bcs = [];
  outflow_bcs = [];
  audit = record {
    rain_volume = z;
    evap_volume = z;
    boundary_outflow = z;
    bc_inflow = z;
    clamp_volume = z;
  };
}

abbrev pub gid : ℕ → ℕ → Option ℕ
gid j i = if is_owned 1 2 j i then some (i - 1) else none

abbrev pub nothing : Coo ℤ
nothing = record { values = λ k. z; rhs = λ k. z }

abbrev pub elementary : Elementary ℤ
elementary = record { sqrt = λ x. x; pow = λ x y. x; exp = λ x. x; cos = λ x. x; sin = λ x. x }

abbrev pub alone : Exchanger ℤ
alone = record { exchange = λ names u. u; exchange_with_corners = λ names u. u }
