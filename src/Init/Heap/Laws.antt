-- ===== src/Init/Heap/Laws.antt =====
-- What all of libinit leaves in the properties.
use device_xiaomi_camellia.Base.{
  ℕ, ◌≡◌, true, Option, none, some, String, str_eq, arith, if◌then◌else◌, ◌&&◌, ltb, Option-cases,
  inl, inr,
}
use device_xiaomi_camellia.Init.Utils.{Properties, property_override}
use device_xiaomi_camellia.Init.Utils.Laws.{property_override_lem}
use device_xiaomi_camellia.Init.Variant.{
  VariantInfo, first_fit, search_variant, variants, get_property, hwc_prop, sku_prop,
}
use device_xiaomi_camellia.Init.Variant.Laws.{assigned, set_variant_props_lem}
use device_xiaomi_camellia.Init.Heap.{set_dalvik_heap, heap_info, gb, vendor_load_properties}

-- What the amount of memory gives a name, if it gives it anything.
pub tuned : ℕ → String → Option String
tuned totalram name =
    let dhi = heap_info totalram in
    if str_eq name "dalvik.vm.heapmaxfree"
    then some dhi.heapmaxfree
    else if str_eq name "dalvik.vm.heapminfree"
    then some dhi.heapminfree
    else if str_eq name "dalvik.vm.heaptargetutilization"
    then some dhi.heaptargetutilization
    else if str_eq name "dalvik.vm.heapsize"
    then some dhi.heapsize
    else if str_eq name "dalvik.vm.heapgrowthlimit"
    then some dhi.heapgrowthlimit
    else if str_eq name "dalvik.vm.heapstartsize"
    then some dhi.heapstartsize
    else if ltb totalram (gb 5) && str_eq name "ro.config.avoid_gfx_accel"
    then some "true"
    else none

set_dalvik_heap_lem :
    (totalram : ℕ) (p : Properties) (name : String)
    → set_dalvik_heap totalram p name
      ≡ (elim (tuned totalram name) [ none ↦ p name | some value ↦ some value ])
unfolding set_dalvik_heap tuned
set_dalvik_heap_lem totalram p name =
    let dhi = heap_info totalram in
    let p0 : Properties =
      if ltb totalram (gb 5)
      then property_override "ro.config.avoid_gfx_accel" "true" true p
      else p in
    let p1 = property_override "dalvik.vm.heapstartsize" dhi.heapstartsize true p0 in
    let p2 = property_override "dalvik.vm.heapgrowthlimit" dhi.heapgrowthlimit true p1 in
    let p3 = property_override "dalvik.vm.heapsize" dhi.heapsize true p2 in
    let p4 =
      property_override "dalvik.vm.heaptargetutilization" dhi.heaptargetutilization true p3 in
    let p5 = property_override "dalvik.vm.heapminfree" dhi.heapminfree true p4 in
    ground (
      arith,
      property_override_lem "ro.config.avoid_gfx_accel" "true" p name,
      property_override_lem "dalvik.vm.heapstartsize" dhi.heapstartsize p0 name,
      property_override_lem "dalvik.vm.heapgrowthlimit" dhi.heapgrowthlimit p1 name,
      property_override_lem "dalvik.vm.heapsize" dhi.heapsize p2 name,
      property_override_lem "dalvik.vm.heaptargetutilization" dhi.heaptargetutilization p3 name,
      property_override_lem "dalvik.vm.heapminfree" dhi.heapminfree p4 name,
      property_override_lem "dalvik.vm.heapmaxfree" dhi.heapmaxfree p5 name,
    )

-- A variant gives a name a value before the memory does.
abbrev pub chosen_for : Properties → Option VariantInfo
chosen_for p = first_fit (get_property p hwc_prop) (get_property p sku_prop) variants

-- At start every property gets what the amount of memory gives it, else what the variant for the
-- device's two values gives it, and else keeps its value; without such a variant only the memory
-- counts.
pub vendor_load_properties_lem :
    (totalram : ℕ) (p : Properties) (name : String)
    → vendor_load_properties totalram p name ≡ (elim (tuned totalram name) [
      | some value ↦ some value
      | none ↦ elim (chosen_for p) [
        | none ↦ p name
        | some variant ↦ elim (assigned variant name) [ none ↦ p name | some value ↦ some value ]
      ]
    ])
unfolding vendor_load_properties search_variant
vendor_load_properties_lem totalram p name = elim (Option-cases (chosen_for p)) [
  | inl e ↦ ground (arith, e, set_dalvik_heap_lem totalram (search_variant variants p) name)
  | inr (variant, e) ↦ ground (
    arith,
    e,
    set_dalvik_heap_lem totalram (search_variant variants p) name,
    set_variant_props_lem variant p name,
  )
]
