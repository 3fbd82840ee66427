-- ===== src/Driver/Surface/Indices.antt =====
-- The outputs and checkpoints of `Simulation::runSurfaceLoop` in driver/Simulation.cpp.
use frehg.Prelude.{
  ℕ, ◌+◌, ◌≡◌, refl, sym, ap, ◌∙◌, arith, ◌⊎◌, inl, inr, true, false, ◌&&◌, Option, none, some,
  List, [], ◌∷◌, Double, Bool-cases, ℤ, lt_ℤ, for_range_inv, Result, ok, ◌>>=◌, Ends, Result-cases,
  Ends-cases, bind-Ends,
}
use frehg.Driver.Loops.{
  Parts, Times, checkpointing, minus_one, sequence, record_transport, record_temperature,
}
use frehg.Driver.Loops.Errors.{
  IsCall, IsCallError, Sound, AreSound, call-Sound, sequence-Sound, record_transport-Sound,
  record_temperature-Sound,
}
use frehg.Driver.Surface.{
  SurfaceWritten, SurfaceLoop, at_boundary, surface_advance, surface_output, surface_checkpoint,
  surface_round, n_steps, surface_enter, surface_leave, run_surface_loop,
}

-- The indices of the outputs in a log rise above `first`, the last one first; `top` is the highest.
abbrev pub Rising : {R : Type 0} → ℤ → ℤ → List (SurfaceWritten R) → Type 0
Rising first top [] = first ≡ top
Rising first top (SurfaceWritten.checkpoint t step ∷ log) = Rising first top log
Rising first top (SurfaceWritten.output index ∷ log) =
    (index ≡ top) × ((last : ℤ) × ((lt_ℤ last index ≡ true) × Rising first last log))

-- The time of the last checkpoint.
abbrev pub last_saved : {R : Type 0} → List (SurfaceWritten R) → Option R
last_saved [] = none
last_saved (SurfaceWritten.output index ∷ log) = last_saved log
last_saved (SurfaceWritten.checkpoint t step ∷ log) = some t

module _ {E R W : Type 0} (double : Double R) (parts : Parts E R W) (times : Times R) (t0 : R) where
  abbrev first_index : ℤ
  first_index = double.llround (double.div t0 times.output_interval)

  abbrev Kept : SurfaceLoop R W → Type 0
  Kept s =
      Rising first_index s.last_output_index s.log
      × (((last_saved s.log ≡ none) × (s.last_checkpoint_time ≡ minus_one double parts times))
          ⊎ (last_saved s.log ≡ some s.last_checkpoint_time))

  abbrev Keeps : Result E (SurfaceLoop R W) → Type 0
  Keeps = Ends (IsCallError parts) Kept

  -- Nothing is asked of the world.
  abbrev Any : W → Type 0
  Any w = Unit

  any : (call : W → Result E W) (w v : W) → IsCall parts call → Any w → call w ≡ ok v → Any v
  any call w v it good h = tt

  of_call : {call : W → Result E W} → IsCall parts call → Sound parts Any any call
  of_call = call-Sound parts Any any

  advance-Keeps :
      (t : R) (s : SurfaceLoop R W) → Kept s → Keeps (surface_advance double parts times t s)
  unfolding surface_advance
  advance-Keeps t s h =
      let records =
        parts.record_mass_audit t
        ∷ record_transport double parts times t
        ∷ record_temperature double parts times t
        ∷ [] in
      let calls =
        parts.begin_step t
        ∷ parts.solve_free_surface
        ∷ parts.update_velocity
        ∷ parts.step_transport t times.dt (double.of_int 0)
        ∷ parts.record_monitors t
        ∷ records in
      let recorded : AreSound parts Any any records = (
        of_call IsCall.record_mass_audit,
        (
          record_transport-Sound parts Any any double times t,
          (record_temperature-Sound parts Any any double times t, tt),
        ),
      ) in
      let moved : AreSound parts Any any
          (parts.step_transport t times.dt (double.of_int 0) ∷ parts.record_monitors t ∷ records) =
        (of_call IsCall.step_transport, (of_call IsCall.record_monitors, recorded)) in
      let sound : AreSound parts Any any calls = (
        of_call IsCall.begin_step,
        (of_call IsCall.solve_free_surface, (of_call IsCall.update_velocity, moved)),
      ) in
      elim (Ends-cases (sequence-Sound parts Any any calls sound s.world tt)) [
        | inl (w, ran, _) ↦ rw ran (Ends.returns h)
        | inr (e, ran, err) ↦ rw ran (Ends.fails err)
      ]

  closing : AreSound parts Any any (parts.flush_surface ∷ parts.flush_run_record false ∷ [])
  closing = (of_call IsCall.flush_surface, (of_call IsCall.flush_run_record, tt))

  output-Keeps :
      (t : R) (s : SurfaceLoop R W) → Kept s → Keeps (surface_output double parts times t s)
  unfolding surface_output
  output-Keeps t s (rising, saved) =
      let index = double.llround (double.div t times.output_interval) in
      let calls =
        parts.write_outputs (double.mul (double.of_long index) times.output_interval)
        ∷ parts.flush_surface
        ∷ parts.flush_run_record false
        ∷ [] in
      let sound : AreSound parts Any any calls = (of_call IsCall.write_outputs, closing) in
      elim (Bool-cases
        (at_boundary double parts times t times.output_interval index s.last_output_index)) [
          | inr e ↦ rw e (Ends.returns (rising, saved))
          | inl e ↦ elim (Ends-cases (sequence-Sound parts Any any calls sound s.world tt)) [
            | inl (w, ran, _) ↦
                let higher : lt_ℤ s.last_output_index index ≡ true = ground arith in
                rw (e, ran) (Ends.returns ((refl, (s.last_output_index, (higher, rising))), saved))
            | inr (f, ran, err) ↦ rw (e, ran) (Ends.fails err)
          ]
        ]

  checkpoint-Keeps :
      (t : R) (step : ℕ) (s : SurfaceLoop R W)
      → Kept s
      → Keeps (surface_checkpoint double parts times t step s)
  unfolding surface_checkpoint
  checkpoint-Keeps t step s (rising, saved) =
      let index = double.llround (double.div t times.checkpoint_interval) in
      let time = double.mul (double.of_long index) times.checkpoint_interval in
      elim (Bool-cases (
        checkpointing double parts times
        && at_boundary double parts times t times.checkpoint_interval index
            s.last_checkpoint_index)) [
              | inr e ↦ rw e (Ends.returns (rising, saved))
              | inl e ↦
                  elim (Result-cases
                    (parts.write_checkpoint (double.of_int 0) time step time s.world)) [
                      | inl (w, ran) ↦ rw (e, ran) (Ends.returns (rising, inr refl))
                      | inr (f, ran) ↦
                          rw (e, ran) (Ends.fails (IsCallError.of_call IsCall.write_checkpoint ran))
                    ]
            ]

  round-Keeps :
      (step : ℕ) (s : SurfaceLoop R W) → Kept s → Keeps (surface_round double parts times t0 step s)
  unfolding surface_round
  round-Keeps step s h =
      let t = double.add t0 (double.mul (double.of_int step) times.dt) in
      let save_next = surface_checkpoint double parts times t step in
      bind-Ends (λ u. surface_output double parts times t u >>= save_next) (advance-Keeps t s h)
        (λ u kept. bind-Ends save_next (output-Keeps t u kept) (checkpoint-Keeps t step))

  -- The last checkpoint is of the end time.
  abbrev pub Saved : SurfaceLoop R W → Type 0
  Saved out =
      (checkpointing double parts times ≡ false)
      ⊎ (last_saved out.log ≡ some times.t_end)
      ⊎ (times.t_end ≡ minus_one double parts times)

  -- The end of the loop.
  abbrev pub Finished : SurfaceLoop R W → Type 0
  Finished out = Saved out × ((top : ℤ) × Rising first_index top out.log)

  module _ (eq_exact : (x y : R) → double.eq x y ≡ true → x ≡ y) where
    recalled :
        (s : SurfaceLoop R W)
        → s.last_checkpoint_time ≡ times.t_end
        → ((last_saved s.log ≡ none) × (s.last_checkpoint_time ≡ minus_one double parts times))
          ⊎ (last_saved s.log ≡ some s.last_checkpoint_time)
        → (last_saved s.log ≡ some times.t_end) ⊎ (times.t_end ≡ minus_one double parts times)
    recalled s e (inl (empty, first)) = inr (sym e ∙ first)
    recalled s e (inr last) = inl (last ∙ ap some e)

    close-Finished :
        (s : SurfaceLoop R W)
        → Finished s
        → Ends (IsCallError parts) Finished (
            sequence (parts.flush_surface ∷ parts.flush_run_record false ∷ []) s.world >>= λ w.
            ok (record s { world = w }))
    close-Finished s h =
        let calls = parts.flush_surface ∷ parts.flush_run_record false ∷ [] in
        elim (Ends-cases (sequence-Sound parts Any any calls closing s.world tt)) [
          | inl (w, ran, _) ↦ rw ran (Ends.returns h)
          | inr (e, ran, err) ↦ rw ran (Ends.fails err)
        ]

    leave-Finished :
        (steps : ℕ) (s : SurfaceLoop R W)
        → Kept s
        → Ends (IsCallError parts) Finished (surface_leave double parts times steps s)
    unfolding surface_leave
    leave-Finished steps s (rising, saved) =
        let risen : (top : ℤ) × Rising first_index top s.log = (s.last_output_index, rising) in
        elim (Bool-cases (checkpointing double parts times)) [
          | inr off ↦ rw off (close-Finished s (inl off, risen))
          | inl on ↦ elim (Bool-cases (double.eq s.last_checkpoint_time times.t_end)) [
            | inl same ↦
                let last = recalled s (eq_exact s.last_checkpoint_time times.t_end same) saved in
                rw (on, same) (close-Finished s (inr last, risen))
            | inr other ↦
                elim (Result-cases (
                  parts.write_checkpoint (double.of_int 0) times.t_end steps times.t_end s.world)) [
                    | inl (w, ran) ↦ rw (on, other, ran) (close-Finished _ (inr (inl refl), risen))
                    | inr (e, ran) ↦
                        rw (on, other, ran)
                          (Ends.fails (IsCallError.of_call IsCall.write_checkpoint ran))
                  ]
          ]
        ]

    -- The surface loop ends, by an error only if it is one in which a call that the loop makes ends.
    -- When it returns, its outputs are labelled with rising indices above that of the start, and the
    -- last checkpoint it has written, if it writes any, is of the end time, unless that is -1.
    pub run_surface_loop_lem :
        (w : W) → Ends (IsCallError parts) Finished (run_surface_loop double parts times t0 w)
    unfolding run_surface_loop surface_enter
    run_surface_loop_lem w =
        let steps = n_steps double parts times t0 in
        let round = surface_round double parts times t0 in
        bind-Ends (surface_leave double parts times steps)
          (for_range_inv (λ k m. Keeps m) (λ step m. m >>= round step) (1 + steps)
            (λ k m h kept. bind-Ends (round k) kept (round-Keeps k)) steps 1
            (ok (surface_enter double parts times t0 w)) refl
            (Ends.returns (refl, inl (refl, refl))))
          (leave-Finished steps)
