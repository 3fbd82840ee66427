-- ===== src/Config/Cross/Outputs/Monitored.antt =====
-- The monitors that the rules accept: their names and their places.
use Prim.Native.String.{String}
use mathlib.Core.List.{Memᴰ}
use frehg.Prelude.{
  ℕ, ◌+◌, ◌≡◌, refl, inl, inr, if◌then◌else◌, true, false, Bool-cases, List, [], ◌∷◌, ◌++◌, ℤ, pos,
  lt_ℤ, Double, arith,
}
use frehg.Config.Document.{Node, Items, Reader, is_map, sub}
use frehg.Config.Check.{Segment, Place, is_listed, join_path}
use frehg.Config.Check.Leaves.{append-nil_inv, add_error_if_none, Mem→is_listed}
use frehg.Config.Cross.{Modules}
use frehg.Config.Cross.Boundaries.{refuse_at, check_name, add_name}
use frehg.Config.Cross.Outputs.{
  check_variable_list, is_outside, extent_of, index_of, check_monitor, check_monitors,
  check_monitor_list,
}

abbrev pub AreDistinct : List String → Type 0
AreDistinct [] = Unit
AreDistinct (name ∷ names) = (Memᴰ name names → ⊥) × AreDistinct names

-- An extent that is known to be positive bounds the index.
abbrev pub IsInside : ℤ → ℤ → Type 0
IsInside n i = lt_ℤ (pos 0) n ≡ true → (lt_ℤ i (pos 0) ≡ false) × (lt_ℤ i n ≡ true)

module _ {R : Type 0} (double : Double R) (reader : Reader R) where
  -- The names of the monitors, the last one first, on top of `names`.
  abbrev pub all_names : List String → Items → List String
  all_names names Items.no_items = names
  all_names names (Items.item monitor items) =
      all_names (add_name reader names (sub monitor "name")) items

  abbrev pub AllInside : ℤ → ℤ → Items → Type 0
  AllInside nx ny Items.no_items = Unit
  AllInside nx ny (Items.item monitor items) =
      (is_map monitor ≡ true
        → IsInside nx (index_of double reader monitor "i")
          × IsInside ny (index_of double reader monitor "j"))
      × AllInside nx ny items

  outside_not : (n i : ℤ) → is_outside n i ≡ false → IsInside n i
  outside_not n i h positive = (ground arith, ground arith)

  monitor-IsInside :
      (on : Modules) (nx ny : ℤ) (where_ : Place) (monitor : Node)
      → check_monitor double reader on nx ny where_ monitor ≡ []
      → IsInside nx (index_of double reader monitor "i")
        × IsInside ny (index_of double reader monitor "j")
  monitor-IsInside on nx ny where_ monitor h =
      let (h1, _) = append-nil_inv _ (check_variable_list on where_ (sub monitor "variables")) h in
      let (i, j) =
        append-nil_inv
          (refuse_at (join_path where_ (Segment.key "i"))
            (is_outside nx (index_of double reader monitor "i")) "outside the domain")
          (refuse_at (join_path where_ (Segment.key "j"))
            (is_outside ny (index_of double reader monitor "j")) "outside the domain")
          h1 in
      (outside_not nx _ (add_error_if_none _ _ _ i), outside_not ny _ (add_error_if_none _ _ _ j))

  name_new :
      (names : List String) (where_ : Place) (node : Node)
      → check_name reader names where_ node ≡ []
      → AreDistinct names
      → AreDistinct (add_name reader names node)
  name_new names where_ (Node.scalar name) h distinct = (
    λ m.
        let k = add_error_if_none (is_listed name names) _ _ h in
        let l = Mem→is_listed m in absurd (cc),
    distinct,
  )
  name_new names where_ Node.undefined h distinct = distinct
  name_new names where_ Node.null h distinct = distinct
  name_new names where_ (Node.list_node items) h distinct = distinct
  name_new names where_ (Node.map_node given) h distinct = distinct

  no_name :
      (names : List String) (monitor : Node)
      → is_map monitor ≡ false
      → add_name reader names (sub monitor "name") ≡ names
  no_name names (Node.map_node given) h = absurd (cc)
  no_name names Node.undefined h = refl
  no_name names Node.null h = refl
  no_name names (Node.scalar s) h = refl
  no_name names (Node.list_node items) h = refl

  monitors_lem :
      (on : Modules) (nx ny : ℤ) (names : List String) (n : ℕ) (items : Items)
      → check_monitors double reader on nx ny names n items ≡ []
      → AreDistinct names
      → AllInside nx ny items × AreDistinct (all_names names items)
  monitors_lem on nx ny names n Items.no_items h distinct = (tt, distinct)
  monitors_lem on nx ny names n (Items.item monitor items) h distinct =
      let where_ = Segment.key "output" ∷ Segment.key "monitors" ∷ Segment.index n ∷ [] in
      let (here, later) =
        append-nil_inv
          (if is_map monitor
            then (check_name reader names where_ (sub monitor "name")
                ++ check_monitor double reader on nx ny where_ monitor)
            else [])
          (check_monitors double reader on nx ny (add_name reader names (sub monitor "name"))
            (n + 1) items)
          h in
      elim (Bool-cases (is_map monitor)) [
        | inl e ↦
            let (name, own) =
              append-nil_inv (check_name reader names where_ (sub monitor "name"))
                (check_monitor double reader on nx ny where_ monitor) (rw e at here) in
            let (all, apart) =
              monitors_lem on nx ny (add_name reader names (sub monitor "name")) (n + 1) items later
                (name_new names where_ _ name distinct) in
            ((λ m. monitor-IsInside on nx ny where_ monitor own, all), apart)
        | inr e ↦
            let (all, apart) =
              monitors_lem on nx ny (add_name reader names (sub monitor "name")) (n + 1) items later
                (rw (no_name names monitor e) distinct) in
            ((λ m. absurd (cc), all), apart)
      ]

  -- In a list of monitors without an error, the names are distinct, and the indices of each monitor lie
  -- in the domain, if its extents are positive.
  pub check_monitor_list_lem :
      (on : Modules) (root : Node) (items : Items)
      → check_monitor_list double reader on root (Node.list_node items) ≡ []
      → AllInside (extent_of double reader root "nx") (extent_of double reader root "ny") items
        × AreDistinct (all_names [] items)
  check_monitor_list_lem on root items h =
      monitors_lem on (extent_of double reader root "nx") (extent_of double reader root "ny") [] 0
        items h tt
