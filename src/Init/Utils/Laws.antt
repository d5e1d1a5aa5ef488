-- ===== src/Init/Utils/Laws.antt =====
-- What the properties hold after a call.
use device_xiaomi_camellia.Base.{
  ◌≡◌, refl, Bool, true, false, some, List, [], ◌∷◌, String, str_eq, arith, if◌then◌else◌,
}
use device_xiaomi_camellia.Init.Utils.{
  Properties, update, property_override, prop_name, set_for_sources, set_ro_build_prop,
  ro_props_default_source_order,
}

-- A text is one of a list.
pub is_in : String → List String → Bool
is_in name [] = false
is_in name (other ∷ names) = if str_eq name other then true else is_in name names

-- The names that a list of sources gives a property.
pub names_for : String → Bool → List String → List String
names_for prop product [] = []
names_for prop product (source ∷ sources) =
    prop_name prop product source ∷ names_for prop product sources

-- A forced override sets its name and no other.
pub property_override_lem :
    (prop value : String) (p : Properties) (name : String)
    → property_override prop value true p name ≡ update prop value p name
unfolding property_override
property_override_lem prop value p name = ground arith

set_for_sources_lem :
    (prop value : String) (product : Bool) (sources : List String) (p : Properties) (name : String)
    → set_for_sources prop value product sources p name
      ≡ (if is_in name (names_for prop product sources) then some value else p name)
unfolding set_for_sources is_in names_for
set_for_sources_lem prop value product [] p name = refl
set_for_sources_lem prop value product (source ∷ sources) p name =
    let first = prop_name prop product source in
    ground (
      arith,
      set_for_sources_lem prop value product sources (property_override first value true p) name,
      property_override_lem first value p name,
    )

-- A build property is set under the names of all sources, whether they exist or not, and no other
-- property changes.
pub set_ro_build_prop_lem :
    (prop value : String) (product : Bool) (p : Properties) (name : String)
    → set_ro_build_prop prop value product p name ≡ (
        if is_in name (names_for prop product ro_props_default_source_order)
        then some value
        else p name)
unfolding set_ro_build_prop
set_ro_build_prop_lem prop value product p name =
    set_for_sources_lem prop value product ro_props_default_source_order p name
