-- ===== src/Init/Heap.antt =====
-- libinit/libinit_dalvik_heap.cpp and `vendor_load_properties` of libinit/init_xiaomi_camellia.cpp.
-- `totalram` is what `sysinfo` reports.
pub mod Laws
use device_xiaomi_camellia.Base.{ℕ, ◌*◌, ◌^◌, Bool, true, List, String, ltb, if◌then◌else◌}
use device_xiaomi_camellia.Init.Utils.{Properties, property_override}
use device_xiaomi_camellia.Init.Variant.{search_variant, variants}

pub record DalvikHeapInfo : Type 0 where
  pub heapstartsize : String
  pub heapgrowthlimit : String
  pub heapsize : String
  pub heapminfree : String
  pub heapmaxfree : String
  pub heaptargetutilization : String

abbrev pub dalvik_heap_info_8192 : DalvikHeapInfo
dalvik_heap_info_8192 = record {
  heapstartsize = "24m";
  heapgrowthlimit = "256m";
  heapsize = "512m";
  heapminfree = "8m";
  heapmaxfree = "48m";
  heaptargetutilization = "0.4";
}

abbrev pub dalvik_heap_info_6144 : DalvikHeapInfo
dalvik_heap_info_6144 = record {
  heapstartsize = "16m";
  heapgrowthlimit = "256m";
  heapsize = "512m";
  heapminfree = "8m";
  heapmaxfree = "32m";
  heaptargetutilization = "0.5";
}

abbrev pub dalvik_heap_info_4096 : DalvikHeapInfo
dalvik_heap_info_4096 = record {
  heapstartsize = "8m";
  heapgrowthlimit = "256m";
  heapsize = "512m";
  heapminfree = "8m";
  heapmaxfree = "16m";
  heaptargetutilization = "0.6";
}

abbrev pub gb : ℕ → ℕ
gb b = b * 2 ^ 30

abbrev pub heap_info : ℕ → DalvikHeapInfo
heap_info totalram =
    if ltb (gb 7) totalram
    then dalvik_heap_info_8192
    else if ltb (gb 5) totalram
    then dalvik_heap_info_6144
    else dalvik_heap_info_4096

unfoldable pub set_dalvik_heap : ℕ → Properties → Properties
set_dalvik_heap totalram p =
    let dhi = heap_info totalram in
    let p0 =
      if ltb totalram (gb 5)
      then property_override "ro.config.avoid_gfx_accel" "true" true p
      else p in
    let p1 = property_override "dalvik.vm.heapstartsize" dhi.heapstartsize true p0 in
    let p2 = property_override "dalvik.vm.heapgrowthlimit" dhi.heapgrowthlimit true p1 in
    let p3 = property_override "dalvik.vm.heapsize" dhi.heapsize true p2 in
    let p4 =
      property_override "dalvik.vm.heaptargetutilization" dhi.heaptargetutilization true p3 in
    let p5 = property_override "dalvik.vm.heapminfree" dhi.heapminfree true p4 in
    property_override "dalvik.vm.heapmaxfree" dhi.heapmaxfree true p5

unfoldable pub vendor_load_properties : ℕ → Properties → Properties
vendor_load_properties totalram p = set_dalvik_heap totalram (search_variant variants p)
