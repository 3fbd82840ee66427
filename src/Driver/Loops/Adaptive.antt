-- ===== src/Driver/Loops/Adaptive.antt =====
-- The coupled and the groundwater loop of driver/Simulation.cpp, from their start to their end.
use frehg.Prelude.{
  ℕ, ◌<◌, ◌≡◌, refl, inl, inr, true, false, List, [], ◌∷◌, Double, Result, ok, Ends, IsRaised,
  Ends-cases,
}
use frehg.Driver.Loops.{
  Parts, Times, Loop, enter, goes_on, transport_after, record_transport, record_temperature,
  coupled_advance, groundwater_advance, run_coupled_loop, run_groundwater_loop,
}
use frehg.Driver.Loops.Errors.{
  IsCall, IsCallError, AreSound, call-Sound, sequence-Sound, transport-Sound,
  record_transport-Sound, record_temperature-Sound,
}
use frehg.Driver.Loops.Ending.{Saved, run_loop_total}

module _ {E R W : Type 0} (double : Double R) (parts : Parts E R W) (times : Times R)
    (Clock Legal : R → Type 0) (rounds : R → ℕ)
    (advances : (t dt : R)
      → Clock t
      → Legal dt
      → double.lt t (double.sub times.t_end (double.scaled 1 9)) ≡ true
      → Clock (double.add t dt) × (rounds (double.add t dt) < rounds t))
    (eq_exact : (x y : R) → double.eq x y ≡ true → x ≡ y) (Good : W → Type 0)
    (keeps : (call : W → Result E W) (w v : W)
      → IsCall parts call
      → Good w
      → call w ≡ ok v
      → Good v) where
  -- What the two loops record of a step.
  abbrev records : R → List (W → Result E W)
  records t =
      parts.record_gw_mass_audit t
      ∷ record_transport double parts times t
      ∷ record_temperature double parts times t
      ∷ []

  records-AreSound : (t : R) → AreSound parts Good keeps (records t)
  records-AreSound t = (
    call-Sound parts Good keeps IsCall.record_gw_mass_audit,
    (
      record_transport-Sound parts Good keeps double times t,
      (record_temperature-Sound parts Good keeps double times t, tt),
    ),
  )

  -- What a step of a loop leaves.
  abbrev Stepped : (R → R → Type 0) → Loop R W → Loop R W → Type 0
  Stepped Ready s u =
      (u.last_checkpoint_time ≡ s.last_checkpoint_time)
      × (u.log ≡ s.log)
      × Ready u.t u.dtg
      × Good u.world
      × (rounds u.t < rounds s.t)

  module _
      (legal : (t dtg : R) (w v : W)
        → Good w
        → parts.gw_step t dtg w ≡ ok v
        → Legal (parts.gw_next_dt v)) where
    abbrev Steady : R → R → Type 0
    Steady t dtg = Clock t × Legal dtg

    groundwater_steps :
        (s : Loop R W)
        → Steady s.t s.dtg
        → Good s.world
        → goes_on double parts times s ≡ true
        → Ends (IsCallError parts) (Stepped Steady s) (groundwater_advance double parts times s)
    unfolding groundwater_advance goes_on
    groundwater_steps s (clock, ready) good e =
        let t = double.add s.t s.dtg in
        let (later, fewer) = advances s.t s.dtg clock ready e in
        let calls =
          transport_after double parts times t s.dtg ∷ parts.record_monitors t ∷ records t in
        let sound : AreSound parts Good keeps calls = (
          transport-Sound parts Good keeps double times t s.dtg,
          (call-Sound parts Good keeps IsCall.record_monitors, records-AreSound t),
        ) in
        let step = call-Sound parts Good keeps (IsCall.gw_step {t = t} {dt = s.dtg}) in
        elim (Ends-cases (step s.world good)) [
          | inr (f, h, err) ↦ rw h (Ends.fails err)
          | inl (v, h, fine) ↦
              elim (Ends-cases (sequence-Sound parts Good keeps calls sound v fine)) [
                | inl (w, g, left) ↦
                    rw (h, g)
                      (Ends.returns
                        (refl, refl, (later, legal t s.dtg s.world v good h), left, fewer))
                | inr (f, g, err) ↦ rw (h, g) (Ends.fails err)
              ]
        ]

    -- From a time, a step and a world that are admitted, where every call that returns keeps the
    -- world so, every step that the solver returns is legal, and each legal step at an admitted time
    -- before the end leads to an admitted time with fewer rounds left: with fuel above the rounds of
    -- the start the groundwater loop ends, by an error only if it is one in which a call that the
    -- loop makes ends. When it returns, its time is not before the end time less the tolerance, and,
    -- with == on numbers exact, the last checkpoint it has written, if it writes any, is of that
    -- time, unless that time is -1.
    pub run_groundwater_loop_total :
        (fuel : ℕ) (t0 dtg : R) (w : W)
        → Clock t0
        → Legal dtg
        → Good w
        → rounds t0 < fuel
        → Ends
            (IsRaised (IsCallError parts))
            (λ out.
              (double.lt out.t (double.sub times.t_end (double.scaled 1 9)) ≡ false)
              × Saved double parts times out)
            (run_groundwater_loop double parts times fuel t0 dtg w)
    unfolding run_groundwater_loop enter
    run_groundwater_loop_total fuel t0 dtg w clock first good lt =
        run_loop_total double parts times parts.flush_groundwater Good keeps
          IsCall.flush_groundwater (groundwater_advance double parts times) Steady rounds
          groundwater_steps eq_exact fuel (enter double parts times t0 dtg w) lt (clock, first)
          (inl (refl, refl)) good

  module _ (legal : (w : W) → Good w → Legal (parts.coupled_next_dt w)) where
    coupled_steps :
        (s : Loop R W)
        → Clock s.t
        → Good s.world
        → goes_on double parts times s ≡ true
        → Ends
            (IsCallError parts)
            (Stepped (λ t dtg. Clock t) s)
            (coupled_advance double parts times s)
    unfolding coupled_advance goes_on
    coupled_steps s clock good e =
        let dt = parts.coupled_next_dt s.world in
        let t = double.add s.t dt in
        let (later, fewer) = advances s.t dt clock (legal s.world good) e in
        let calls =
          parts.coupled_step t dt
          ∷ transport_after double parts times t dt
          ∷ parts.record_monitors t
          ∷ parts.record_mass_audit t
          ∷ records t in
        let sound : AreSound parts Good keeps calls = (
          call-Sound parts Good keeps IsCall.coupled_step,
          (
            transport-Sound parts Good keeps double times t dt,
            (
              call-Sound parts Good keeps IsCall.record_monitors,
              (call-Sound parts Good keeps IsCall.record_mass_audit, records-AreSound t),
            ),
          ),
        ) in
        elim (Ends-cases (sequence-Sound parts Good keeps calls sound s.world good)) [
          | inl (w, g, left) ↦ rw g (Ends.returns (refl, refl, later, left, fewer))
          | inr (f, g, err) ↦ rw g (Ends.fails err)
        ]

    -- From a time and a world that are admitted, where every call that returns keeps the world so,
    -- every step that the coupler asks for in such a world is legal, and each legal step at an
    -- admitted time before the end leads to an admitted time with fewer rounds left: with fuel above
    -- the rounds of the start the coupled loop ends, by an error only if it is one in which a call
    -- that the loop makes ends. When it returns, its time is not before the end time less the
    -- tolerance, and, with == on numbers exact, the last checkpoint it has written, if it writes any,
    -- is of that time, unless that time is -1.
    pub run_coupled_loop_total :
        (fuel : ℕ) (t0 dtg : R) (w : W)
        → Clock t0
        → Good w
        → rounds t0 < fuel
        → Ends
            (IsRaised (IsCallError parts))
            (λ out.
              (double.lt out.t (double.sub times.t_end (double.scaled 1 9)) ≡ false)
              × Saved double parts times out)
            (run_coupled_loop double parts times fuel t0 dtg w)
    unfolding run_coupled_loop enter
    run_coupled_loop_total fuel t0 dtg w clock good lt =
        run_loop_total double parts times parts.flush_coupled Good keeps IsCall.flush_coupled
          (coupled_advance double parts times) (λ t dtg. Clock t) rounds coupled_steps eq_exact fuel
          (enter double parts times t0 dtg w) lt clock (inl (refl, refl)) good
