-- ===== src/Init/Utils.antt =====
-- libinit/libinit_utils.cpp. The system properties are a map from names to values; the calls of
-- the C library find, update and add them.
pub mod Laws
pub mod Description
use Prim.Native.String
use device_xiaomi_camellia.Base.Texts.{cut, cut_part}
use device_xiaomi_camellia.Base.{
  Bool, true, false, Option, none, some, List, [], ◌∷◌, String, ◌<>◌, str_eq, if◌then◌else◌,
}

abbrev pub Properties : Type 0
Properties = String → Option String

abbrev pub update : String → String → Properties → Properties
update prop value p name = if str_eq name prop then some value else p name

unfoldable pub property_override : String → String → Bool → Properties → Properties
property_override prop value add p = elim (p prop) [
  | some old ↦ update prop value p
  | none ↦ if add then update prop value p else p
]

abbrev pub ro_props_default_source_order : List String
ro_props_default_source_order =
    "odm." ∷ "odm_dlkm." ∷ "product." ∷ "system." ∷ "system_ext." ∷ "vendor." ∷ "vendor_dlkm." ∷ ""
    ∷ []

abbrev pub prop_name : String → Bool → String → String
prop_name prop product source =
    if product then "ro.product." <> (source <> prop) else "ro." <> (source <> ("build." <> prop))

-- The loop, over a list of sources.
unfoldable pub set_for_sources : String → String → Bool → List String → Properties → Properties
unfolding property_override
set_for_sources prop value product [] p = p
set_for_sources prop value product (source ∷ sources) p =
    set_for_sources prop value product sources
      (property_override (prop_name prop product source) value true p)

unfoldable pub set_ro_build_prop : String → String → Bool → Properties → Properties
unfolding set_for_sources
set_ro_build_prop prop value product =
    set_for_sources prop value product ro_props_default_source_order

-- `FIND_AND_REMOVE`: the variable, and the text that is left. Without a delimiter the variable is
-- the whole text and, since `npos + 1` is 0, nothing is erased.
unfoldable pub find_and_remove : String → String → String × String
unfolding cut
find_and_remove delimiter s = elim (cut delimiter s) [ none ↦ (s, s) | some parts ↦ parts ]

unfoldable pub fingerprint_to_description : String → String
fingerprint_to_description fingerprint =
    let (brand, s1) = find_and_remove "/" fingerprint in
    let (product, s2) = find_and_remove "/" s1 in
    let (device, s3) = find_and_remove ":" s2 in
    let (platform_version, s4) = find_and_remove "/" s3 in
    let (build_id, s5) = find_and_remove "/" s4 in
    let (build_number, s6) = find_and_remove ":" s5 in
    let (build_variant, build_version_tags) = find_and_remove "/" s6 in
    product
    <> ("-"
        <> (build_variant
            <> (" "
                <> (platform_version
                    <> (" "
                        <> (build_id <> (" " <> (build_number <> (" " <> build_version_tags)))))))))
