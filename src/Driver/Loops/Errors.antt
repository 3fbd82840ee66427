-- ===== src/Driver/Loops/Errors.antt =====
-- The errors in which the calls of the time loops of driver/Simulation.cpp end.
use frehg.Prelude.{
  ℕ, ◌≡◌, Bool, true, false, if◌then◌else◌, inl, inr, List, [], ◌∷◌, Double, Result, ok, fatal,
  Result-cases, Ends, bind-Ends,
}
use frehg.Driver.Loops.{
  Parts, Times, sequence, record_transport, record_temperature, transport_after,
}

module _ {E R W : Type 0} (parts : Parts E R W) where
  -- A call that the loops make of the simulation's parts.
  pub data IsCall : (W → Result E W) → Type 0 where
    coupled_step : {t dt : R} → IsCall (parts.coupled_step t dt)
    gw_step : {t dt : R} → IsCall (parts.gw_step t dt)
    begin_step : {t : R} → IsCall (parts.begin_step t)
    solve_free_surface : IsCall parts.solve_free_surface
    update_velocity : IsCall parts.update_velocity
    step_transport : {t dt dtg : R} → IsCall (parts.step_transport t dt dtg)
    record_monitors : {t : R} → IsCall (parts.record_monitors t)
    record_mass_audit : {t : R} → IsCall (parts.record_mass_audit t)
    record_gw_mass_audit : {t : R} → IsCall (parts.record_gw_mass_audit t)
    record_transport_audit : {t : R} → IsCall (parts.record_transport_audit t)
    record_temperature_audit : {t : R} → IsCall (parts.record_temperature_audit t)
    write_outputs : {label : R} → IsCall (parts.write_outputs label)
    write_checkpoint :
        {dtg t label : R} {step : ℕ} → IsCall (parts.write_checkpoint dtg t step label)
    flush_coupled : IsCall parts.flush_coupled
    flush_surface : IsCall parts.flush_surface
    flush_groundwater : IsCall parts.flush_groundwater
    flush_run_record : {finished : Bool} → IsCall (parts.flush_run_record finished)

  -- The error is one in which such a call ends.
  pub data IsCallError (e : E) : Type 0 where
    of_call : {call : W → Result E W} {w : W} → IsCall call → call w ≡ fatal e → IsCallError e

-- For a property of the world that the calls keep.
module _ {E R W : Type 0} (parts : Parts E R W) (Good : W → Type 0)
    (keeps : (call : W → Result E W) (w v : W)
      → IsCall parts call
      → Good w
      → call w ≡ ok v
      → Good v) where
  abbrev pub Sound : (W → Result E W) → Type 0
  Sound call = (w : W) → Good w → Ends (IsCallError parts) Good (call w)

  pub call-Sound : {call : W → Result E W} → IsCall parts call → Sound call
  call-Sound {call} it w good = elim (Result-cases (call w)) [
    | inl (v, h) ↦ rw h (Ends.returns (keeps call w v it good h))
    | inr (e, h) ↦ rw h (Ends.fails (IsCallError.of_call it h))
  ]

  abbrev pub AreSound : List (W → Result E W) → Type 0
  AreSound [] = Unit
  AreSound (call ∷ calls) = Sound call × AreSound calls

  pub sequence-Sound : (calls : List (W → Result E W)) → AreSound calls → Sound (sequence calls)
  unfolding sequence
  sequence-Sound [] sound w good = Ends.returns good
  sequence-Sound (call ∷ calls) (first, rest) w good =
      bind-Ends (sequence calls) (first w good) (sequence-Sound calls rest)

  optional-Sound :
      (b : Bool) {call : W → Result E W} → Sound call → Sound (λ w. if b then call w else ok w)
  optional-Sound true sound w good = sound w good
  optional-Sound false sound w good = Ends.returns good

  module _ (double : Double R) (times : Times R) (t : R) where
    pub transport-Sound : (dt : R) → Sound (transport_after double parts times t dt)
    transport-Sound dt w good = call-Sound IsCall.step_transport w good

    pub record_transport-Sound : Sound (record_transport double parts times t)
    record_transport-Sound =
        optional-Sound parts.has_transport (call-Sound IsCall.record_transport_audit)

    pub record_temperature-Sound : Sound (record_temperature double parts times t)
    record_temperature-Sound =
        optional-Sound parts.has_temperature (call-Sound IsCall.record_temperature_audit)
