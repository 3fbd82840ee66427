-- ===== src/Driver/Surface.antt =====
-- `Simulation::runSurfaceLoop` of driver/Simulation.cpp: a fixed number of steps of the surface, with
-- the outputs and checkpoints that it has written, the last one first.
pub mod Indices
use frehg.Prelude.{
  ℕ, ◌+◌, Bool, false, not, ◌&&◌, if◌then◌else◌, Result, ok, ◌>>=◌, List, [], ◌∷◌, ℤ, pos, to_ℕ,
  lt_ℤ, Double, for_range,
}
use frehg.Driver.Loops.{
  Parts, Times, checkpointing, minus_one, record_transport, record_temperature, sequence, tolerance,
}

pub data SurfaceWritten (R : Type 0) : Type 0 where
  output : ℤ → SurfaceWritten R
  checkpoint : R → ℕ → SurfaceWritten R

pub record SurfaceLoop (R W : Type 0) : Type 0 where
  pub last_output_index : ℤ
  pub last_checkpoint_index : ℤ
  pub last_checkpoint_time : R
  pub world : W
  pub log : List (SurfaceWritten R)

module _ {E R W : Type 0} (double : Double R) (parts : Parts E R W) (times : Times R) where
  -- `index > last` and the time within half a step of the boundary `index * interval`.
  abbrev pub at_boundary : R → R → ℤ → ℤ → Bool
  at_boundary t interval index last =
      lt_ℤ last index
      && double.lt (double.fabs (double.sub t (double.mul (double.of_long index) interval)))
          (double.mul (double.scaled 5 1) times.dt)

  -- The label that a checkpoint of this loop has by default is its time.
  abbrev pub save : R → ℕ → SurfaceLoop R W → Result E (SurfaceLoop R W)
  save t step s = parts.write_checkpoint (double.of_int 0) t step t s.world >>= λ w.
      ok (record s { world = w; log = SurfaceWritten.checkpoint t step ∷ s.log })

  unfoldable pub surface_advance : R → SurfaceLoop R W → Result E (SurfaceLoop R W)
  unfolding sequence
  surface_advance t s =
      sequence
        (parts.begin_step t
          ∷ parts.solve_free_surface
          ∷ parts.update_velocity
          ∷ parts.step_transport t times.dt (double.of_int 0)
          ∷ parts.record_monitors t
          ∷ parts.record_mass_audit t
          ∷ record_transport double parts times t
          ∷ record_temperature double parts times t
          ∷ [])
        s.world
      >>= λ w. ok (record s { world = w })

  unfoldable pub surface_output : R → SurfaceLoop R W → Result E (SurfaceLoop R W)
  unfolding sequence
  surface_output t s =
      let index = double.llround (double.div t times.output_interval) in
      if at_boundary t times.output_interval index s.last_output_index
      then (sequence
            (parts.write_outputs (double.mul (double.of_long index) times.output_interval)
              ∷ parts.flush_surface
              ∷ parts.flush_run_record false
              ∷ [])
            s.world
          >>= λ w. ok (record s {
            last_output_index = index;
            world = w;
            log = SurfaceWritten.output index ∷ s.log;
          }))
      else ok s

  unfoldable pub surface_checkpoint : R → ℕ → SurfaceLoop R W → Result E (SurfaceLoop R W)
  surface_checkpoint t step s =
      let index = double.llround (double.div t times.checkpoint_interval) in
      let time = double.mul (double.of_long index) times.checkpoint_interval in
      if checkpointing double parts times
        && at_boundary t times.checkpoint_interval index s.last_checkpoint_index
      then save time step (record s { last_checkpoint_index = index; last_checkpoint_time = time })
      else ok s

  unfoldable pub surface_round : R → ℕ → SurfaceLoop R W → Result E (SurfaceLoop R W)
  unfolding surface_advance surface_output surface_checkpoint
  surface_round t0 step s =
      let t = double.add t0 (double.mul (double.of_int step) times.dt) in
      surface_advance t s >>= λ advanced.
      surface_output t advanced >>= λ put_out. surface_checkpoint t step put_out

  unfoldable pub n_steps : R → ℕ
  n_steps t0 = to_ℕ (
      double.to_long (
        double.ceil (
          double.sub (double.div (double.sub times.t_end t0) times.dt)
            (tolerance double parts times))))

  unfoldable pub surface_enter : R → W → SurfaceLoop R W
  surface_enter t0 w = record {
    last_output_index = double.llround (double.div t0 times.output_interval);
    last_checkpoint_index =
        if checkpointing double parts times
        then double.llround (double.div t0 times.checkpoint_interval)
        else pos 0;
    last_checkpoint_time = minus_one double parts times;
    world = w;
    log = [];
  }

  unfoldable pub surface_leave : ℕ → SurfaceLoop R W → Result E (SurfaceLoop R W)
  unfolding sequence
  surface_leave steps s =
      (if checkpointing double parts times && not (double.eq s.last_checkpoint_time times.t_end)
        then save times.t_end steps s
        else ok s)
      >>= λ saved.
          sequence (parts.flush_surface ∷ parts.flush_run_record false ∷ []) saved.world >>= λ w.
          ok (record saved { world = w })

  unfoldable pub run_surface_loop : R → W → Result E (SurfaceLoop R W)
  unfolding surface_round n_steps surface_enter surface_leave
  run_surface_loop t0 w =
      for_range (n_steps t0) 1 (λ step m. m >>= surface_round t0 step) (ok (surface_enter t0 w))
      >>= surface_leave (n_steps t0)
