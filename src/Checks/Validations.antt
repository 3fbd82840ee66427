-- ===== src/Checks/Validations.antt =====
-- core/ConfigSchema.cpp and core/Config.cpp on small documents.
use frehg.Prelude.{ℕ, ◌≡◌, refl, ◌↔◌, ltb, leb, ok, true, false, some, [], ◌∷◌}
use frehg.Config.Document.{sub}
use frehg.Config.Suggestion.{nearest_key, edit_distance, codes}
use frehg.Config.Suggestion.Distance.{levenshtein, reverse_onto, edit_distance_lem}
use frehg.Config.Schema.Root.{build_root_schema}
use frehg.Config.Schema.Sections.{bc_entry}
use frehg.Config.Check.{check_node}
use frehg.Config.Check.Conforms.{Conforms}
use frehg.Config.Check.Complete.{check_node_iff}
use frehg.Config.Cross.{modules_of}
use frehg.Config.Cross.Boundaries.{kind_of}
use frehg.Config.Cross.Boundaries.Coupled.{coupled_top_is_flux}
use frehg.Config.Cross.Outputs.{extent_of}
use frehg.Config.Cross.Outputs.Monitored.{AreDistinct, AllInside, all_names, check_monitor_list_lem}
use frehg.Config.Cross.Root.{cross_checks, validate_root}
use frehg.Config.Load.Subsurface.{GroundwaterConfig, extract_groundwater}
use frehg.Config.Load.Root.{FrehgConfig, load_config}
use frehg.Config.Load.Total.Times.{loaded_times}
use frehg.Config.Load.Total.Steps.{valid_groundwater_loads}
use frehg.Checks.Numbers.{whole}
use frehg.Checks.Documents.{reader, column, top_flux, gauges}

valid_column : validate_root whole reader column ≡ []
unfolding validate_root cross_checks check_node build_root_schema nearest_key edit_distance
valid_column = refl

near : nearest_key "dt_mim" ("dt_init" ∷ "dt_min" ∷ "dt_max" ∷ []) ≡ some "dt_min"
unfolding nearest_key edit_distance
near = refl

edit_distance_lem_example :
    edit_distance (codes "depth") (codes "death")
    ≡ levenshtein (reverse_onto (codes "depth") []) (reverse_onto (codes "death") [])
edit_distance_lem_example = edit_distance_lem (codes "depth") (codes "death")

check_node_iff_example :
    (check_node whole reader (build_root_schema whole) [] column ≡ [])
    ↔ Conforms whole reader (build_root_schema whole) column
check_node_iff_example = check_node_iff whole reader (build_root_schema whole) [] column

valid_groundwater_loads_example :
    (c : GroundwaterConfig ℕ) × (extract_groundwater whole reader (sub column "groundwater") ≡ ok c)
    × (ltb 0 c.timestep.dt_min ≡ true)
    × (leb c.timestep.dt_min c.timestep.dt_init ≡ true)
    × (leb c.timestep.dt_init c.timestep.dt_max ≡ true)
valid_groundwater_loads_example = valid_groundwater_loads whole reader column valid_column refl

top_flux_conforms : Conforms whole reader (bc_entry whole) top_flux
unfolding check_node
top_flux_conforms = (check_node_iff whole reader (bc_entry whole) [] top_flux).0 refl

coupled_top_is_flux_example : kind_of top_flux ≡ "flux"
coupled_top_is_flux_example =
    coupled_top_is_flux whole reader false false [] top_flux top_flux_conforms refl refl

check_monitor_list_lem_example :
    AllInside whole reader
      (extent_of whole reader column "nx")
      (extent_of whole reader column "ny")
      gauges
    × AreDistinct (all_names whole reader [] gauges)
check_monitor_list_lem_example =
    check_monitor_list_lem whole reader (modules_of reader column) column gauges refl

column_loaded : (c : FrehgConfig ℕ) × (load_config whole reader column ≡ ok c)
unfolding load_config validate_root cross_checks check_node build_root_schema nearest_key
    edit_distance
column_loaded = (_, refl)

loaded_times_example :
    (ltb column_loaded.0.time.t_start column_loaded.0.time.t_end ≡ true)
    × (ltb 0 column_loaded.0.time.t_end ≡ true)
loaded_times_example = loaded_times whole reader column column_loaded.0 column_loaded.1
