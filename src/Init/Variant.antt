-- ===== src/Init/Variant.antt =====
-- libinit/libinit_variant.cpp and the variants of libinit/init_xiaomi_camellia.cpp.
pub mod Laws
use device_xiaomi_camellia.Base.{
  Bool, true, false, ◌&&◌, ◌||◌, Option, none, some, List, [], ◌∷◌, String, str_eq, if◌then◌else◌,
}
use device_xiaomi_camellia.Init.Utils.{
  Properties, property_override, set_ro_build_prop, fingerprint_to_description,
}

pub record VariantInfo : Type 0 where
  pub hwc_value : String
  pub sku_value : String
  pub brand : String
  pub device : String
  pub model : String
  pub build_fingerprint : String
  pub nfc : Bool

abbrev pub hwc_prop : String
hwc_prop = "ro.boot.rsc"

abbrev pub sku_prop : String
sku_prop = "ro.boot.product.hardware.sku"

-- `GetProperty(name, "")`
abbrev pub get_property : Properties → String → String
get_property p name = elim (p name) [ none ↦ "" | some value ↦ value ]

unfoldable pub set_variant_props : VariantInfo → Properties → Properties
set_variant_props variant p =
    let p1 = set_ro_build_prop "brand" variant.brand true p in
    let p2 = set_ro_build_prop "device" variant.device true p1 in
    let p3 = set_ro_build_prop "model" variant.model true p2 in
    let p4 = set_ro_build_prop "fingerprint" variant.build_fingerprint false p3 in
    let p5 = property_override "ro.bootimage.build.fingerprint" variant.build_fingerprint true p4 in
    let p6 =
      property_override "ro.build.description"
        (fingerprint_to_description variant.build_fingerprint) true p5 in
    if variant.nfc then property_override sku_prop "nfc" true p6 else p6

abbrev pub fits : VariantInfo → String → String → Bool
fits variant hwc sku =
    (str_eq variant.hwc_value "" || str_eq variant.hwc_value hwc)
    && (str_eq variant.sku_value "" || str_eq variant.sku_value sku)

-- The variant at which the loop breaks.
unfoldable pub first_fit : String → String → List VariantInfo → Option VariantInfo
first_fit hwc sku [] = none
first_fit hwc sku (variant ∷ variants) =
    if fits variant hwc sku then some variant else first_fit hwc sku variants

unfoldable pub search_variant : List VariantInfo → Properties → Properties
search_variant variants p =
    elim (first_fit (get_property p hwc_prop) (get_property p sku_prop) variants) [
      | none ↦ p
      | some variant ↦ set_variant_props variant p
    ]

abbrev pub camelliain_info : VariantInfo
camelliain_info = record {
  hwc_value = "camelliain";
  sku_value = "camellia";
  brand = "Redmi";
  device = "camellia";
  model = "Redmi Note 10T 5G";
  build_fingerprint =
      "Redmi/camellia_in/camelliain:12/SP1A.210812.016/V14.0.6.0.TKSMIXM:user/release-keys";
  nfc = false;
}

abbrev pub camelliacn_info : VariantInfo
camelliacn_info = record {
  hwc_value = "camelliacn";
  sku_value = "camelliar";
  brand = "Redmi";
  device = "camellia";
  model = "Redmi Note 11SE";
  build_fingerprint =
      "Redmi/camellia/camellia:12/SP1A.210812.016/V14.0.6.0.TKSMIXM:user/release-keys";
  nfc = false;
}

abbrev pub camellia_info : VariantInfo
camellia_info = record {
  hwc_value = "camelliacn";
  sku_value = "camellia";
  brand = "Redmi";
  device = "camellia";
  model = "Redmi Note 10 5G";
  build_fingerprint =
      "Redmi/camellia/camellia:12/SP1A.210812.016/V14.0.6.0.TKSMIXM:user/release-keys";
  nfc = false;
}

abbrev pub camelliagl_info : VariantInfo
camelliagl_info = record {
  hwc_value = "camelliagl";
  sku_value = "camellian";
  brand = "Redmi";
  device = "camellian";
  model = "Redmi Note 10 5G";
  build_fingerprint =
      "Redmi/camellian_global/camellian:12/SP1A.210812.016/V14.0.6.0.TKSMIXM:user/release-keys";
  nfc = true;
}

abbrev pub camellianp_info : VariantInfo
camellianp_info = record {
  hwc_value = "camelliagl";
  sku_value = "camellianp";
  brand = "POCO";
  device = "camellian";
  model = "POCO M3 Pro 5G";
  build_fingerprint =
      "POCO/camellian_p_global/camellian:12/SP1A.210812.016/V14.0.6.0.TKSMIXM:user/release-keys";
  nfc = true;
}

abbrev pub variants : List VariantInfo
variants =
    camelliain_info ∷ camelliacn_info ∷ camellia_info ∷ camelliagl_info ∷ camellianp_info ∷ []
