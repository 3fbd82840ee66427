-- ===== src/Checks/Registrations.antt =====
-- The registration of fields of core/HaloExchanger.cpp.
use frehg.Prelude.{◌≡◌, refl, [], ◌∷◌, ok, fatal, Result}
use frehg.Halo.Messages.{Extents}
use frehg.Halo.Registry.{Registry, RegistryError, add_flat, add_deep, add_entry, ensure_capacity}

abbrev small : Extents
small = record { nx_local = 4; ny_local = 3; nz = 2 }

abbrev blank : Registry
blank = record { entries = []; capacity = λ dir. 0 }

abbrev or_blank : Result RegistryError Registry → Registry
or_blank (ok s) = s
or_blank (fatal e) = blank

abbrev with_eta : Registry
unfolding add_flat
with_eta = or_blank (add_flat small (101 ∷ []) 5 6 blank)

twice : add_deep small (101 ∷ []) 5 6 2 with_eta ≡ fatal RegistryError.registered_twice
unfolding add_flat add_deep add_entry ensure_capacity
twice = refl
