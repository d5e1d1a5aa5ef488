-- ===== src/Tests/Init.antt =====
-- Small inputs for libinit: the variant camellian.
use device_xiaomi_camellia.Base.{◌≡◌, refl, none, some, ◌<>◌, str_eq, if◌then◌else◌}
use device_xiaomi_camellia.Base.Texts.{cut}
use device_xiaomi_camellia.Init.Utils.{Properties, fingerprint_to_description}
use device_xiaomi_camellia.Init.Utils.Description.{fingerprint_to_description_lem}
use device_xiaomi_camellia.Init.Variant.Laws.{assigned}
use device_xiaomi_camellia.Init.Heap.{vendor_load_properties, gb}
use device_xiaomi_camellia.Init.Heap.Laws.{vendor_load_properties_lem, tuned, chosen_for}

fingerprint_to_description_lem_example :
    fingerprint_to_description (
      "Redmi"
      <> ("/"
          <> ("camellia"
              <> ("/"
                  <> ("camellia"
                      <> (":"
                          <> ("12"
                              <> ("/"
                                  <> ("SP1A"
                                      <> ("/"
                                          <> ("V14"
                                              <> (":"
                                                  <> ("user" <> ("/" <> "release-keys"))))))))))))))
    ≡ "camellia"
      <> ("-"
          <> ("user"
              <> (" "
                  <> ("12" <> (" " <> ("SP1A" <> (" " <> ("V14" <> (" " <> "release-keys")))))))))
unfolding cut
fingerprint_to_description_lem_example =
    fingerprint_to_description_lem "Redmi" "camellia" "camellia" "12" "SP1A" "V14" "user"
      "release-keys" refl refl refl refl refl refl refl

abbrev global_device : Properties
global_device name =
    if str_eq name "ro.boot.rsc"
    then some "camelliagl"
    else if str_eq name "ro.boot.product.hardware.sku"
    then some "camellian"
    else none

vendor_load_properties_lem_example :
    vendor_load_properties (gb 6) global_device "ro.product.model"
    ≡ (elim (tuned (gb 6) "ro.product.model") [
      | some value ↦ some value
      | none ↦ elim (chosen_for global_device) [
        | none ↦ none
        | some variant ↦ elim (assigned variant "ro.product.model") [
          | none ↦ none
          | some value ↦ some value
        ]
      ]
    ])
vendor_load_properties_lem_example =
    vendor_load_properties_lem (gb 6) global_device "ro.product.model"
