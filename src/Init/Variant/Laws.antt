-- ===== src/Init/Variant/Laws.antt =====
-- Which variant is chosen, and what its properties are.
use device_xiaomi_camellia.Base.{
  inl, inr, ◌≡◌, refl, Bool, true, false, Option, none, some, List, [], ◌∷◌, String, str_eq, eq_iff,
  arith, if◌then◌else◌, ◌&&◌, ◌||◌, ◌⊎◌, ◌↔◌,
}
use device_xiaomi_camellia.Init.Utils.{
  Properties, property_override, set_ro_build_prop, fingerprint_to_description,
  ro_props_default_source_order,
}
use device_xiaomi_camellia.Init.Utils.Laws.{
  is_in, names_for, set_ro_build_prop_lem, property_override_lem,
}
use device_xiaomi_camellia.Init.Variant.{
  VariantInfo, first_fit, set_variant_props, variants, sku_prop, camelliain_info, camelliacn_info,
  camellia_info, camelliagl_info, camellianp_info, fits,
}

first_fit-fits :
    (hwc sku : String) (vs : List VariantInfo) (variant : VariantInfo)
    → first_fit hwc sku vs ≡ some variant
    → fits variant hwc sku ≡ true
unfolding first_fit
first_fit-fits hwc sku [] variant found = cc
first_fit-fits hwc sku (v ∷ vs) variant found = ground (arith, first_fit-fits hwc sku vs variant)

-- A variant of the list.
abbrev pub IsKnown : VariantInfo → Type 0
IsKnown variant =
    (variant ≡ camelliain_info)
    ⊎ (variant ≡ camelliacn_info)
    ⊎ (variant ≡ camellia_info)
    ⊎ (variant ≡ camelliagl_info)
    ⊎ (variant ≡ camellianp_info)

-- The two values of a known variant are not empty, and it is chosen for them.
IsKnown-cases :
    (variant : VariantInfo)
    → IsKnown variant
    → (str_eq variant.hwc_value "" ≡ false)
      × (str_eq variant.sku_value "" ≡ false)
      × (first_fit variant.hwc_value variant.sku_value variants ≡ some variant)
unfolding first_fit
IsKnown-cases variant (inl e) = rw e (refl, refl, refl)
IsKnown-cases variant (inr (inl e)) = rw e (refl, refl, refl)
IsKnown-cases variant (inr (inr (inl e))) = rw e (refl, refl, refl)
IsKnown-cases variant (inr (inr (inr (inl e)))) = rw e (refl, refl, refl)
IsKnown-cases variant (inr (inr (inr (inr e)))) = rw e (refl, refl, refl)

-- No variant of the list hides another one: a known variant is chosen exactly for its own two
-- values.
pub first_fit_lem :
    (hwc sku : String) (variant : VariantInfo)
    → IsKnown variant
    → (first_fit hwc sku variants ≡ some variant)
      ↔ ((hwc ≡ variant.hwc_value) × (sku ≡ variant.sku_value))
first_fit_lem hwc sku variant known =
    let (has_hwc, has_sku, own) = IsKnown-cases variant known in
    ground (
      arith,
      own,
      has_hwc,
      has_sku,
      first_fit-fits hwc sku variants variant,
      eq_iff variant.hwc_value hwc,
      eq_iff variant.sku_value sku,
    )

-- The names of a property for all sources.
abbrev pub all_names : String → Bool → List String
all_names prop product = names_for prop product ro_props_default_source_order

-- What a variant gives a name, if it gives it anything.
pub assigned : VariantInfo → String → Option String
assigned variant name =
    if variant.nfc && str_eq name sku_prop
    then some "nfc"
    else if str_eq name "ro.build.description"
    then some (fingerprint_to_description variant.build_fingerprint)
    else if str_eq name "ro.bootimage.build.fingerprint"
        || is_in name (all_names "fingerprint" false)
    then some variant.build_fingerprint
    else if is_in name (all_names "model" true)
    then some variant.model
    else if is_in name (all_names "device" true)
    then some variant.device
    else if is_in name (all_names "brand" true)
    then some variant.brand
    else none

-- After a variant is set every name has what the variant gives it, and its old value if the
-- variant gives it nothing, whether the property existed before or not.
pub set_variant_props_lem :
    (variant : VariantInfo) (p : Properties) (name : String)
    → set_variant_props variant p name
      ≡ (elim (assigned variant name) [ none ↦ p name | some value ↦ some value ])
unfolding set_variant_props assigned
set_variant_props_lem variant p name =
    let p1 = set_ro_build_prop "brand" variant.brand true p in
    let p2 = set_ro_build_prop "device" variant.device true p1 in
    let p3 = set_ro_build_prop "model" variant.model true p2 in
    let p4 = set_ro_build_prop "fingerprint" variant.build_fingerprint false p3 in
    let boot : String = "ro.bootimage.build.fingerprint" in
    let p5 = property_override boot variant.build_fingerprint true p4 in
    let description = fingerprint_to_description variant.build_fingerprint in
    let p6 = property_override "ro.build.description" description true p5 in
    ground (
      arith,
      property_override_lem sku_prop "nfc" p6 name,
      property_override_lem "ro.build.description" description p5 name,
      property_override_lem boot variant.build_fingerprint p4 name,
      set_ro_build_prop_lem "fingerprint" variant.build_fingerprint false p3 name,
      set_ro_build_prop_lem "model" variant.model true p2 name,
      set_ro_build_prop_lem "device" variant.device true p1 name,
      set_ro_build_prop_lem "brand" variant.brand true p name,
    )
