-- ===== src/Config/Load/Total/Times.antt =====
-- The times of a configuration that is loaded.
use Prim.Native.String.{String}
use frehg.Prelude.{
  ◌≡◌, refl, ap, ◌∙◌, ◌⊎◌, inl, inr, Result, ok, fatal, ◌>>=◌, true, Bool-cases, Option-cases, some,
  pos, List, [], ◌∷◌, Double,
}
use frehg.Config.Document.{Node, Reader, is_defined, sub, sub2, node_as_double, real_or}
use frehg.Config.Cross.Root.{validate_root}
use frehg.Config.Valid.Steps.{valid_time}
use frehg.Config.Load.{YamlError, as_text, value_or, text_is, as_real, real_at}
use frehg.Config.Load.Sections.{
  TimeConfig, extract_simulation, extract_domain, extract_time, extract_modules,
}
use frehg.Config.Load.Surface.{extract_surface_water, extract_atmosphere}
use frehg.Config.Load.Subsurface.{extract_groundwater, extract_soil}
use frehg.Config.Load.Scalars.{extract_transport, extract_temperature}
use frehg.Config.Load.Outputs.{extract_boundary_conditions, extract_output, extract_restart}
use frehg.Config.Load.Initial.{extract_initial_conditions, default_system, parse_system}
use frehg.Config.Load.Root.{FrehgConfig, LoadError, section, extract_config, load_config}
use frehg.Config.Load.Total.Steps.{undefined_of, same_value}

-- A conversion that has a property whenever it returns.
abbrev Ensures : {A : Type 0} → (A → Type 0) → Result YamlError A → Type 0
Ensures {A} P m = (a : A) → m ≡ ok a → P a

bound :
    {A B : Type 0} {P : B → Type 0} (m : Result YamlError A) (f : A → Result YamlError B)
    → ((a : A) → m ≡ ok a → Ensures P (f a))
    → Ensures P (m >>= f)
bound (ok a) f next b h = next a refl b h
bound (fatal e) f next b h = absurd (cc)

ok_eq : {E A : Type 0} {a b : A} → ◌≡◌ {A = Result E A} (ok a) (ok b) → a ≡ b
ok_eq h = cc

List-cases : {A : Type 0} (l : List A) → (l ≡ []) ⊎ ((a : A) × (as_ : List A) × (l ≡ a ∷ as_))
List-cases [] = inl refl
List-cases (a ∷ as_) = inr (a, as_, refl)

result_of :
    {A : Type 0} (m : Result YamlError A) (a : A)
    → ◌≡◌ {A = Result LoadError A}
        (elim m [ ok c ↦ ok c | fatal e ↦ fatal (LoadError.thrown e) ])
        (ok a)
    → m ≡ ok a
result_of (ok c) a h = ap ok (ok_eq h)
result_of (fatal e) a h = absurd (cc)

module _ {R : Type 0} (double : Double R) (reader : Reader R) where
  loaded_parts :
      (root : Node) (c : FrehgConfig R)
      → load_config double reader root ≡ ok c
      → (validate_root double reader root ≡ []) × (extract_config double reader root ≡ ok c)
  unfolding load_config
  loaded_parts root c h = elim (List-cases (validate_root double reader root)) [
    | inl valid ↦
        (valid, result_of (extract_config double reader root) c (rw (valid, load_config) at h))
    | inr (e, errors, wrong) ↦ absurd (let k = rw (wrong, load_config) at h in cc)
  ]

  time_loaded :
      (root : Node)
      → Ensures
          (λ c. extract_time double reader (sub root "time") ≡ ok c.time)
          (extract_config double reader root)
  time_loaded root =
      bound (extract_simulation double reader (sub root "simulation")) _ (λ simulation _.
        bound (extract_domain double reader (sub root "domain")) _ (λ domain _.
          bound (extract_time double reader (sub root "time")) _ (λ time e.
            bound (extract_modules double reader (sub root "modules")) _ (λ modules _.
              bound (section (extract_atmosphere double reader) (sub root "atmosphere")) _
                (λ atmosphere _.
                  bound (section (extract_surface_water double reader) (sub root "surface_water")) _
                    (λ surface_water _.
                      bound (section (extract_groundwater double reader) (sub root "groundwater")) _
                        (λ groundwater _.
                          bound (section (extract_soil double reader) (sub root "soil")) _
                            (λ soil _.
                              bound (text_is (sub2 root "coupling" "mode") "sync" "subcycled") _
                                (λ is_subcycled _.
                                  bound
                                    (section
                                      (extract_initial_conditions double reader modules.groundwater)
                                      (sub root "initial_conditions"))
                                    _
                                    (λ initial _.
                                      bound
                                        (extract_boundary_conditions double reader
                                          (sub root "boundary_conditions"))
                                        _
                                        (λ conditions _.
                                          bound
                                            (section (extract_transport double reader)
                                              (sub root "transport"))
                                            _
                                            (λ transport _.
                                              bound
                                                (section (extract_temperature double reader)
                                                  (sub root "temperature"))
                                                _
                                                (λ temperature _.
                                                  bound
                                                    (extract_output double reader
                                                      (sub root "output"))
                                                    _
                                                    (λ output _.
                                                      bound
                                                        (extract_restart double reader
                                                          (sub root "restart"))
                                                        _
                                                        (λ restart _.
                                                          bound
                                                            (parse_system double reader
                                                            (sub2 root "solver" "surface")
                                                            (default_system double reader
                                                            (pos 500)))
                                                            _
                                                            (λ surface_solver _.
                                                            bound
                                                            (parse_system double reader
                                                            (sub2 root "solver" "groundwater")
                                                            (default_system double reader
                                                            (pos 1000)))
                                                            _
                                                            (λ groundwater_solver _.
                                                            bound
                                                            (value_or as_text
                                                            (sub2 root "solver"
                                                            "petsc_options_file")
                                                            "")
                                                            _
                                                            (λ options_file _.
                                                            bound
                                                            (value_or as_text
                                                            (sub2 root "runtime" "gpu_aware_mpi")
                                                            "auto")
                                                            _
                                                            (λ mode _. λ c h.
                                                            e
                                                            ∙ ap (λ x. ok (x.time))
                                                            (ok_eq h))))))))))))))))))))

  real_read :
      (node : Node) (v : R)
      → as_real double reader node ≡ ok v
      → node_as_double reader node ≡ some v
  real_read node v h = elim (Option-cases (node_as_double reader node)) [
    | inl e ↦ absurd (let k = rw (e, as_real) at h in cc)
    | inr (w, e) ↦ let k = rw (e, as_real) at h in e ∙ ap some (ok_eq k)
  ]

  start_read :
      (section : Node) (key : String) (fallback v : R)
      → real_at double reader section key fallback ≡ ok v
      → real_or reader (sub section key) fallback ≡ v
  start_read section key fallback v h = elim (Bool-cases (is_defined (sub section key))) [
    | inl d ↦ rw (real_read (sub section key) v (rw (d, real_at, value_or) at h), real_or) refl
    | inr d ↦
        let k = rw (d, real_at, value_or) at h in rw (undefined_of (sub section key) d) (ok_eq k)
  ]

  -- The start and the end, as numbers of the document.
  abbrev AreTimes : Node → TimeConfig R → Type 0
  AreTimes section c =
      (real_or reader (sub section "t_start") (double.of_int 0) ≡ c.t_start)
      × (node_as_double reader (sub section "t_end") ≡ some c.t_end)

  times_read : (section : Node) → Ensures (AreTimes section) (extract_time double reader section)
  times_read section = bound (as_real double reader (sub section "dt")) _ (λ _ _.
      bound (real_at double reader section "t_start" (double.of_int 0)) _ (λ start es.
        bound (as_real double reader (sub section "t_end")) _ (λ end ee.
          bound (as_real double reader (sub section "output_interval")) _ (λ _ _. λ c h. (
            start_read section "t_start" _ start es ∙ ap (λ x. x.t_start) (ok_eq h),
            real_read (sub section "t_end") end ee ∙ ap (λ x. some (x.t_end)) (ok_eq h),
          )))))

  -- A configuration that is loaded starts before it ends, and it ends at a positive time.
  pub loaded_times :
      (root : Node) (c : FrehgConfig R)
      → load_config double reader root ≡ ok c
      → (double.lt c.time.t_start c.time.t_end ≡ true)
        × (double.lt (double.of_int 0) c.time.t_end ≡ true)
  loaded_times root c h =
      let (valid, extracted) = loaded_parts root c h in
      let (t_end, e, positive, later) = valid_time double reader root valid in
      let (start, end) = times_read (sub root "time") c.time (time_loaded root c extracted) in
      let same : t_end ≡ c.time.t_end = same_value e end in
      (rw (start, same) at later, rw same at positive)
