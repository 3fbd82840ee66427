-- ===== src/Config/Cross/Root.antt =====
-- `crossChecks` and `validateRoot` of core/ConfigSchema.cpp as a whole.
use frehg.Prelude.{true, List, [], ◌++◌, Double}
use frehg.Config.Document.{Node, Reader, sub, sub2}
use frehg.Config.Check.{Problem, ConfigError, add_error_if, check_node}
use frehg.Config.Schema.Root.{build_root_schema}
use frehg.Config.Cross.{Modules, modules_of, check_modules}
use frehg.Config.Cross.Temperature.{check_temperature}
use frehg.Config.Cross.Forcing.{
  check_time, check_rainfall, check_wind, check_atmosphere, check_surface_evaporation,
  check_soil_evaporation,
}
use frehg.Config.Cross.Flow.{
  check_subsurface_update, check_density_coupling, check_terrain_layers, check_timestep, check_soil,
}
use frehg.Config.Cross.Initial.{check_initial_conditions, check_restart, check_options_file}
use frehg.Config.Cross.Boundaries.{check_boundary_conditions}
use frehg.Config.Cross.Outputs.{check_output_variables, check_monitor_list}

module _ {R : Type 0} (double : Double R) (reader : Reader R) where
  abbrev pub check_sections : Modules → Node → List ConfigError
  check_sections on root =
      check_modules on root
      ++ (check_temperature on root
          ++ (check_time double reader root
              ++ (check_rainfall root
                  ++ (check_wind root
                      ++ (check_atmosphere root
                          ++ (check_surface_evaporation root ++ check_soil_evaporation on root))))))

  unfoldable pub cross_checks : Node → List ConfigError
  cross_checks root =
      let on = modules_of reader root in
      check_sections on root
      ++ (check_subsurface_update on root
          ++ (check_density_coupling double reader on root
              ++ (check_terrain_layers double reader root
                  ++ (check_timestep double reader root
                      ++ (check_initial_conditions on root
                          ++ (check_soil root
                              ++ (check_boundary_conditions reader on
                                    (sub root "boundary_conditions")
                                  ++ (check_output_variables on root
                                      ++ (check_monitor_list double reader on root
                                            (sub2 root "output" "monitors")
                                          ++ (check_restart reader root
                                              ++ check_options_file reader root))))))))))

  unfoldable pub validate_root : Node → List ConfigError
  validate_root (Node.map_node given) =
      check_node double reader (build_root_schema double) [] (Node.map_node given)
      ++ cross_checks (Node.map_node given)
  validate_root root = add_error_if true [] Problem.expected_mapping
