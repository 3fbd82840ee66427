-- ===== src/Driver/Loops.antt =====
-- The time loops of driver/Simulation.cpp. What they call of the simulation's parts acts on a world
-- of type `W` and returns it, or ends in a fatal error, which leaves the loop. The outputs and
-- checkpoints written stand in a log, the last one first. The warnings on the CFL number and the
-- messages are left out. A loop that did not end in the fuel is `out_of_fuel`.
pub mod Errors
pub mod Ending
pub mod Adaptive
use frehg.Prelude.{
  ℕ, zero, suc, ◌+◌, Bool, true, false, not, ◌&&◌, if◌then◌else◌, Result, ok, fatal, Failure,
  out_of_fuel, attempt, ◌>>=◌, List, [], ◌∷◌, ℤ, pos, to_ℕ, Double,
}

pub record Parts (E R W : Type 0) : Type 0 where
  pub coupled_step : R → R → W → Result E W
  pub coupled_next_dt : W → R
  pub gw_step : R → R → W → Result E W
  pub gw_next_dt : W → R
  pub gw_last_dtg : W → R
  pub begin_step : R → W → Result E W
  pub solve_free_surface : W → Result E W
  pub update_velocity : W → Result E W
  pub step_transport : R → R → R → W → Result E W
  pub has_transport : Bool
  pub has_temperature : Bool
  pub record_monitors : R → W → Result E W
  pub record_mass_audit : R → W → Result E W
  pub record_gw_mass_audit : R → W → Result E W
  pub record_transport_audit : R → W → Result E W
  pub record_temperature_audit : R → W → Result E W
  pub write_outputs : R → W → Result E W
  pub write_checkpoint : R → R → ℕ → R → W → Result E W
  pub flush_coupled : W → Result E W
  pub flush_surface : W → Result E W
  pub flush_groundwater : W → Result E W
  pub flush_run_record : Bool → W → Result E W

-- Calls one after the other; one that fails is the last.
unfoldable pub sequence : {E W : Type 0} → List (W → Result E W) → W → Result E W
sequence [] w = ok w
sequence (call ∷ calls) w = call w >>= λ v. sequence calls v

pub record Times (R : Type 0) : Type 0 where
  pub dt : R
  pub t_end : R
  pub output_interval : R
  pub checkpoint_interval : R

pub data Written (R : Type 0) : Type 0 where
  output : R → Written R
  checkpoint : R → ℕ → R → Written R

-- The variables of the adaptive loops. `dtg` is the member that the groundwater loop steps with.
pub record Loop (R W : Type 0) : Type 0 where
  pub t : R
  pub step : ℕ
  pub next_output : R
  pub next_checkpoint : R
  pub last_checkpoint_time : R
  pub dtg : R
  pub world : W
  pub log : List (Written R)

module _ {E R W : Type 0} (double : Double R) (parts : Parts E R W) (times : Times R) where
  abbrev pub tolerance : R
  tolerance = double.scaled 1 9

  -- (std::floor(t / interval + 1.0e-9) + 1.0) * interval
  unfoldable pub boundary_after : R → R → R
  boundary_after interval t =
      double.mul
        (double.add (double.floor (double.add (double.div t interval) tolerance)) (double.of_int 1))
        interval

  abbrev pub checkpointing : Bool
  checkpointing = double.lt (double.of_int 0) times.checkpoint_interval

  abbrev pub minus_one : R
  minus_one = double.sub (double.of_int 0) (double.of_int 1)

  unfoldable pub enter : R → R → W → Loop R W
  enter t0 dtg w = record {
    t = t0;
    step = 0;
    next_output = boundary_after times.output_interval t0;
    next_checkpoint =
        if checkpointing then boundary_after times.checkpoint_interval t0 else double.of_int 0;
    last_checkpoint_time = minus_one;
    dtg = dtg;
    world = w;
    log = [];
  }

  unfoldable pub goes_on : Loop R W → Bool
  goes_on s = double.lt s.t (double.sub times.t_end tolerance)

  -- `if (transport_) ...`, `if (temperature_) ...`
  abbrev pub record_transport : R → W → Result E W
  record_transport t w = if parts.has_transport then parts.record_transport_audit t w else ok w

  abbrev pub record_temperature : R → W → Result E W
  record_temperature t w =
      if parts.has_temperature then parts.record_temperature_audit t w else ok w

  -- The transport takes the last subsurface step from the world that it finds.
  abbrev pub transport_after : R → R → W → Result E W
  transport_after t dt w = parts.step_transport t dt (parts.gw_last_dtg w) w

  -- The output of a step that has crossed a boundary; `flush` closes the files that the loop writes.
  unfoldable pub output_crossed : (W → Result E W) → Loop R W → Result E (Loop R W)
  unfolding sequence
  output_crossed flush s =
      if double.le (double.sub s.next_output tolerance) s.t
      then (sequence (parts.write_outputs s.next_output ∷ flush ∷ parts.flush_run_record false ∷ [])
            s.world
          >>= λ w. ok (record s {
            next_output = boundary_after times.output_interval s.t;
            world = w;
            log = Written.output s.next_output ∷ s.log;
          }))
      else ok s

  unfoldable pub checkpoint_crossed : Loop R W → Result E (Loop R W)
  checkpoint_crossed s =
      if checkpointing && double.le (double.sub s.next_checkpoint tolerance) s.t
      then (parts.write_checkpoint s.dtg s.t s.step s.next_checkpoint s.world >>= λ w.
          ok (record s {
            next_checkpoint = boundary_after times.checkpoint_interval s.t;
            last_checkpoint_time = s.t;
            world = w;
            log = Written.checkpoint s.t s.step s.next_checkpoint ∷ s.log;
          }))
      else ok s

  -- The step of runCoupledLoop and of runGroundwaterLoop, with what they record of it.
  unfoldable pub coupled_advance : Loop R W → Result E (Loop R W)
  unfolding sequence
  coupled_advance s =
      let dt = parts.coupled_next_dt s.world in
      let t = double.add s.t dt in
      sequence
        (parts.coupled_step t dt
          ∷ transport_after t dt
          ∷ parts.record_monitors t
          ∷ parts.record_mass_audit t
          ∷ parts.record_gw_mass_audit t
          ∷ record_transport t
          ∷ record_temperature t
          ∷ [])
        s.world
      >>= λ w. ok (record s { t = t; step = s.step + 1; world = w })

  unfoldable pub groundwater_advance : Loop R W → Result E (Loop R W)
  unfolding sequence
  groundwater_advance s =
      let t = double.add s.t s.dtg in
      parts.gw_step t s.dtg s.world >>= λ stepped.
      sequence
        (transport_after t s.dtg
          ∷ parts.record_monitors t
          ∷ parts.record_gw_mass_audit t
          ∷ record_transport t
          ∷ record_temperature t
          ∷ [])
        stepped
      >>= λ w. ok (record s { t = t; step = s.step + 1; dtg = parts.gw_next_dt stepped; world = w })

  -- One round, the loop, and what follows it.
  unfoldable pub round :
      (Loop R W → Result E (Loop R W)) → (W → Result E W) → Loop R W → Result E (Loop R W)
  unfolding output_crossed checkpoint_crossed
  round advance flush s = advance s >>= λ advanced.
      output_crossed flush advanced >>= λ put_out. checkpoint_crossed put_out

  unfoldable pub march :
      (Loop R W → Result E (Loop R W))
      → (W → Result E W)
      → ℕ
      → Loop R W
      → Result (Failure E) (Loop R W)
  unfolding round goes_on
  march advance flush zero s = fatal out_of_fuel
  march advance flush (suc fuel) s =
      let rest = (attempt (round advance flush s) >>= λ u. march advance flush fuel u) in
      if goes_on s then rest else ok s

  abbrev pub close_files : (W → Result E W) → Loop R W → Result E (Loop R W)
  close_files flush s = sequence (flush ∷ parts.flush_run_record false ∷ []) s.world >>= λ w.
      ok (record s { world = w })

  unfoldable pub leave : (W → Result E W) → Loop R W → Result E (Loop R W)
  unfolding sequence
  leave flush s =
      let label = double.floor (double.add s.t (double.scaled 5 1)) in
      if checkpointing && not (double.eq s.last_checkpoint_time s.t)
      then (parts.write_checkpoint s.dtg s.t s.step label s.world >>= λ w.
          close_files flush
            (record s { world = w; log = Written.checkpoint s.t s.step label ∷ s.log }))
      else close_files flush s

  unfoldable pub run_loop :
      (Loop R W → Result E (Loop R W))
      → (W → Result E W)
      → ℕ
      → Loop R W
      → Result (Failure E) (Loop R W)
  unfolding march leave
  run_loop advance flush fuel s = march advance flush fuel s >>= λ u. attempt (leave flush u)

  unfoldable pub run_coupled_loop : ℕ → R → R → W → Result (Failure E) (Loop R W)
  unfolding run_loop coupled_advance enter
  run_coupled_loop fuel t0 dtg w =
      run_loop coupled_advance parts.flush_coupled fuel (enter t0 dtg w)

  unfoldable pub run_groundwater_loop : ℕ → R → R → W → Result (Failure E) (Loop R W)
  unfolding run_loop groundwater_advance enter
  run_groundwater_loop fuel t0 dtg w =
      run_loop groundwater_advance parts.flush_groundwater fuel (enter t0 dtg w)
