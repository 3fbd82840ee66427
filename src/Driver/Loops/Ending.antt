-- ===== src/Driver/Loops/Ending.antt =====
-- How the adaptive time loops of driver/Simulation.cpp end, and what they have then written.
use frehg.Prelude.{
  ℕ, zero, suc, ◌<◌, ◌≡◌, refl, sym, ap, ◌∙◌, arith, ◌⊎◌, inl, inr, true, false, ◌&&◌, Option, none,
  some, List, [], ◌∷◌, Double, Bool-cases, Result, ok, ◌>>=◌, Ends, IsRaised, Ends-cases, bind-Ends,
  map-Ends, attempt, attempt-Ends,
}
use frehg.Driver.Loops.{
  Parts, Times, Written, Loop, goes_on, output_crossed, checkpoint_crossed, round, march, leave,
  run_loop, minus_one, checkpointing, tolerance, close_files,
}
use frehg.Driver.Loops.Errors.{IsCall, IsCallError, AreSound, call-Sound, sequence-Sound}

-- The time of the last checkpoint in a log.
abbrev pub last_checkpoint : {R : Type 0} → List (Written R) → Option R
last_checkpoint [] = none
last_checkpoint (Written.output label ∷ log) = last_checkpoint log
last_checkpoint (Written.checkpoint t step label ∷ log) = some t

module _ {E R W : Type 0} (double : Double R) (parts : Parts E R W) (times : Times R) where
  -- The variable is the time of the last checkpoint, or -1 when there is none.
  abbrev pub Remembered : Loop R W → Type 0
  Remembered s =
      ((last_checkpoint s.log ≡ none) × (s.last_checkpoint_time ≡ minus_one double parts times))
      ⊎ (last_checkpoint s.log ≡ some s.last_checkpoint_time)

  -- The checkpoint that stands last after the loop.
  abbrev pub Saved : Loop R W → Type 0
  Saved out =
      (checkpointing double parts times ≡ false)
      ⊎ (last_checkpoint out.log ≡ some out.t)
      ⊎ (out.t ≡ minus_one double parts times)

module _ {E R W : Type 0} (double : Double R) (parts : Parts E R W) (times : Times R)
    (flush : W → Result E W) (Good : W → Type 0)
    (keeps : (call : W → Result E W) (w v : W)
      → IsCall parts call
      → Good w
      → call w ≡ ok v
      → Good v)
    (flushes : IsCall parts flush) where
  -- The clock and the step are as before, the variable is right, and the world has its property.
  abbrev Passed : Loop R W → Loop R W → Type 0
  Passed s u = (u.t ≡ s.t) × (u.dtg ≡ s.dtg) × Remembered double parts times u × Good u.world

  closing : AreSound parts Good keeps (flush ∷ parts.flush_run_record false ∷ [])
  closing = (
    call-Sound parts Good keeps flushes,
    (call-Sound parts Good keeps IsCall.flush_run_record, tt),
  )

  output-Passed :
      (s : Loop R W)
      → Remembered double parts times s
      → Good s.world
      → Ends (IsCallError parts) (Passed s) (output_crossed double parts times flush s)
  unfolding output_crossed
  output-Passed s h good =
      let calls = parts.write_outputs s.next_output ∷ flush ∷ parts.flush_run_record false ∷ [] in
      let sound : AreSound parts Good keeps calls =
        (call-Sound parts Good keeps IsCall.write_outputs, closing) in
      elim (Bool-cases (double.le (double.sub s.next_output (tolerance double parts times)) s.t)) [
        | inr due ↦ rw due (Ends.returns (refl, refl, h, good))
        | inl due ↦ elim (Ends-cases (sequence-Sound parts Good keeps calls sound s.world good)) [
          | inl (w, ran, kept) ↦ rw (due, ran) (Ends.returns (refl, refl, h, kept))
          | inr (e, ran, err) ↦ rw (due, ran) (Ends.fails err)
        ]
      ]

  checkpoint-Passed :
      (s : Loop R W)
      → Remembered double parts times s
      → Good s.world
      → Ends (IsCallError parts) (Passed s) (checkpoint_crossed double parts times s)
  unfolding checkpoint_crossed
  checkpoint-Passed s h good =
      elim (Bool-cases (
        checkpointing double parts times
        && double.le (double.sub s.next_checkpoint (tolerance double parts times)) s.t)) [
          | inr due ↦ rw due (Ends.returns (refl, refl, h, good))
          | inl due ↦
              elim (Ends-cases (
                call-Sound parts Good keeps
                  (IsCall.write_checkpoint {dtg = s.dtg} {t = s.t} {label = s.next_checkpoint}
                    {step = s.step})
                  s.world good)) [
                    | inl (w, ran, kept) ↦ rw (due, ran) (Ends.returns (refl, refl, inr refl, kept))
                    | inr (e, ran, err) ↦ rw (due, ran) (Ends.fails err)
                  ]
        ]

  module _ (advance : Loop R W → Result E (Loop R W)) (Ready : R → R → Type 0) (rounds : R → ℕ)
      (steps : (s : Loop R W)
        → Ready s.t s.dtg
        → Good s.world
        → goes_on double parts times s ≡ true
        → Ends
            (IsCallError parts)
            (λ u.
              (u.last_checkpoint_time ≡ s.last_checkpoint_time)
              × (u.log ≡ s.log)
              × Ready u.t u.dtg
              × Good u.world
              × (rounds u.t < rounds s.t))
            (advance s))
      (eq_exact : (x y : R) → double.eq x y ≡ true → x ≡ y) where
    -- What a round leaves.
    abbrev Shorter : Loop R W → Loop R W → Type 0
    Shorter s u =
        Ready u.t u.dtg × (rounds u.t < rounds s.t) × Remembered double parts times u × Good u.world

    round-Shorter :
        (s : Loop R W)
        → Ready s.t s.dtg
        → goes_on double parts times s ≡ true
        → Remembered double parts times s
        → Good s.world
        → Ends (IsCallError parts) (Shorter s) (round double parts times advance flush s)
    unfolding round
    round-Shorter s ready e h good =
        bind-Ends
          (λ u. output_crossed double parts times flush u >>= checkpoint_crossed double parts times)
          (steps s ready good e)
          (λ u (same, logged, next, fine, fewer).
            bind-Ends (checkpoint_crossed double parts times)
              (output-Passed u (rw (same, logged) h) fine)
              (λ v (t, dtg, kept, fine').
                map-Ends (checkpoint-Passed v kept fine') (λ x (t', dtg', kept', left).
                  (rw (t', dtg', t, dtg) next, rw (t', t) fewer, kept', left))))

    -- The loop has come to its end.
    abbrev Stopped : Loop R W → Type 0
    Stopped u =
        (goes_on double parts times u ≡ false) × Remembered double parts times u × Good u.world

    march_total :
        (fuel : ℕ) (s : Loop R W)
        → rounds s.t < fuel
        → Ready s.t s.dtg
        → Remembered double parts times s
        → Good s.world
        → Ends
            (IsRaised (IsCallError parts))
            Stopped
            (march double parts times advance flush fuel s)
    unfolding march
    march_total zero s lt ready h good = absurd (omega arith)
    march_total (suc fuel) s lt ready h good = elim (Bool-cases (goes_on double parts times s)) [
      | inr e ↦ rw e (Ends.returns (e, h, good))
      | inl e ↦ rw e (
          bind-Ends (march double parts times advance flush fuel)
            (attempt-Ends (round-Shorter s ready e h good))
            (λ u (next, fewer, kept, left). march_total fuel u (omega arith) next kept left))
    ]

    recalled :
        (s : Loop R W)
        → double.eq s.last_checkpoint_time s.t ≡ true
        → Remembered double parts times s
        → (last_checkpoint s.log ≡ some s.t) ⊎ (s.t ≡ minus_one double parts times)
    recalled s same (inl (empty, first)) =
        inr (sym (eq_exact s.last_checkpoint_time s.t same) ∙ first)
    recalled s same (inr last) = inl (last ∙ ap some (eq_exact s.last_checkpoint_time s.t same))

    -- The end of the loop: not before the end time, with the last checkpoint of that time.
    abbrev pub Ended : Loop R W → Type 0
    Ended out =
        (double.lt out.t (double.sub times.t_end (tolerance double parts times)) ≡ false)
        × Saved double parts times out

    close_files-Ended :
        (s : Loop R W)
        → Ended s
        → Good s.world
        → Ends (IsCallError parts) Ended (close_files double parts times flush s)
    close_files-Ended s h good =
        let calls = flush ∷ parts.flush_run_record false ∷ [] in
        elim (Ends-cases (sequence-Sound parts Good keeps calls closing s.world good)) [
          | inl (w, ran, kept) ↦ rw ran (Ends.returns h)
          | inr (e, ran, err) ↦ rw ran (Ends.fails err)
        ]

    leave-Ended :
        (s : Loop R W)
        → Stopped s
        → Ends (IsCallError parts) Ended (leave double parts times flush s)
    unfolding leave goes_on
    leave-Ended s (stop, h, good) = elim (Bool-cases (checkpointing double parts times)) [
      | inr off ↦ rw off (close_files-Ended s (stop, inl off) good)
      | inl on ↦ elim (Bool-cases (double.eq s.last_checkpoint_time s.t)) [
        | inl same ↦ rw (on, same) (close_files-Ended s (stop, inr (recalled s same h)) good)
        | inr other ↦
            let label = double.floor (double.add s.t (double.scaled 5 1)) in
            elim (Ends-cases (
              call-Sound parts Good keeps
                (IsCall.write_checkpoint {dtg = s.dtg} {t = s.t} {label = label} {step = s.step})
                s.world good)) [
                  | inl (w, ran, kept) ↦
                      rw (on, other, ran) (close_files-Ended _ (stop, inr (inl refl)) kept)
                  | inr (e, ran, err) ↦ rw (on, other, ran) (Ends.fails err)
                ]
      ]
    ]

    pub run_loop_total :
        (fuel : ℕ) (s : Loop R W)
        → rounds s.t < fuel
        → Ready s.t s.dtg
        → Remembered double parts times s
        → Good s.world
        → Ends
            (IsRaised (IsCallError parts))
            Ended
            (run_loop double parts times advance flush fuel s)
    unfolding run_loop
    run_loop_total fuel s lt ready h good =
        bind-Ends (λ u. attempt (leave double parts times flush u))
          (march_total fuel s lt ready h good) (λ u stopped. attempt-Ends (leave-Ended u stopped))
