-- ===== src/Tests/Sensors.antt =====
-- Small inputs for sensors/HalProxy.cpp and sensors/HalProxyCallback.cpp.
use device_xiaomi_camellia.Base.{
  ℕ, ◌≡◌, refl, true, false, arith, none, some, List, [], ◌∷◌, if◌then◌else◌, ◌++◌, All, contains,
  Bool,
}
use device_xiaomi_camellia.Base.Dict.{find}
use native.Mathlib.Decide.{ℕ_discrete}
use device_xiaomi_camellia.Sensors.Platform.{
  multihal, multihal-IsDocumented, SensorInfo, Event, float_one,
}
use device_xiaomi_camellia.Sensors.Handle.{
  sub_hal_index_is_clear, set_sub_hal_index, is_sub_hal_index_valid,
}
use device_xiaomi_camellia.Sensors.Handle.Laws.{is_sub_hal_index_valid_lem}
use device_xiaomi_camellia.Sensors.Wakelock.{Wakelock}
use device_xiaomi_camellia.Sensors.EventQueue.{
  post, advance, empty, Call as QueueCall, run as run_queue,
}
use device_xiaomi_camellia.Sensors.EventQueue.Drained.{run-advances, advances, rounds}
use device_xiaomi_camellia.Sensors.EventQueue.Order.{
  offered-run, offered, undelivered, accepted_all,
}
use device_xiaomi_camellia.Sensors.SensorList.{initialize_sensor_list}
use device_xiaomi_camellia.Sensors.SensorList.Laws.{initialize_sensor_list-IsListed, IsListed}
use device_xiaomi_camellia.Sensors.SensorList.Owned.{Lists}
use device_xiaomi_camellia.Sensors.Dynamic.{
  Connected, on_dynamic_sensors_connected, on_dynamic_sensors_disconnected,
}
use device_xiaomi_camellia.Sensors.Dynamic.Laws.{latest, find-on_dynamic_sensors}
use device_xiaomi_camellia.Sensors.Callback.{post_events}
use device_xiaomi_camellia.Sensors.Callback.Laws.{post_events_assertion}

abbrev mask : ℕ
mask = 0xff00_0000

own_handle_clear : sub_hal_index_is_clear mask 5 ≡ true
unfolding sub_hal_index_is_clear
own_handle_clear = refl

other_handle_clear : sub_hal_index_is_clear mask 6 ≡ true
unfolding sub_hal_index_is_clear
other_handle_clear = refl

is_sub_hal_index_valid_lem_example : is_sub_hal_index_valid 200 (set_sub_hal_index 5 130) ≡ false
is_sub_hal_index_valid_lem_example =
    is_sub_hal_index_valid_lem mask refl 200 5 130 (omega arith) (omega arith) own_handle_clear
      (omega arith)

abbrev pub unused : Wakelock
unused = record {
  threads_run = true;
  ref_count = 0;
  timeout_start_time = 0;
  timeout_reset_time = 0;
  held = false;
}

abbrev pub used : Wakelock
used = record unused { ref_count = 2; timeout_start_time = 10; held = true }

abbrev pub pick_up : SensorInfo
pick_up = record {
  sensor_handle = 5;
  name = "pickup";
  type_as_string = "xiaomi pick up sensor";
  sensor_type = 0;
  max_range = 0;
  flags = 1;
}

abbrev pub light : SensorInfo
light = record pick_up { sensor_handle = 6; type_as_string = "light"; flags = 0x400 }

abbrev pub raised : Event
raised = record { sensor_handle = 5; sensor_type = 25; scalar = float_one; stamp = 1 }

abbrev pub lowered : Event
lowered = record raised { scalar = 0; stamp = 2 }

-- Two posts and a round of the thread: one event fits at first.
abbrev pub calls : List QueueCall
calls =
    post 1 true (raised ∷ lowered ∷ []) 1
    ∷ post 1 true (raised ∷ []) 1
    ∷ advance 8 true
    ∷ advance 8 true
    ∷ advance 8 true
    ∷ []

offered-run_example :
    offered (run_queue 10 calls empty) ++ undelivered (run_queue 10 calls empty)
    ≡ accepted_all 10 calls empty
offered-run_example = offered-run 10 calls

-- One post of one event is pending after them.
abbrev thread : List (ℕ × Bool)
thread = (8, true) ∷ (1, true) ∷ (8, true) ∷ (8, true) ∷ (1, true) ∷ (8, true) ∷ []

run-advances_example :
    let q = run_queue 10 (advances thread) (run_queue 10 calls empty) in
    (q.pending ≡ []) × (offered q ≡ accepted_all 10 calls empty)
unfolding run_queue rounds
run-advances_example = run-advances 10 calls thread (omega arith) (omega arith) (omega arith)

abbrev pub listed : List (ℕ × SensorInfo)
listed = (5, pick_up) ∷ []

initialize_sensor_list-IsListed_example :
    let t = initialize_sensor_list multihal ((pick_up ∷ light ∷ []) ∷ (light ∷ []) ∷ []) in
    All
      (IsListed multihal
        (Lists ((pick_up ∷ light ∷ []) ∷ (light ∷ []) ∷ []))
        2
        t.direct_channel_sub_hal)
      t.sensors
initialize_sensor_list-IsListed_example =
    initialize_sensor_list-IsListed multihal multihal-IsDocumented
      ((pick_up ∷ light ∷ []) ∷ (light ∷ []) ∷ [])

abbrev pub connected : Connected
connected = (set_sub_hal_index 6 3, light) ∷ []

find-on_dynamic_sensors_example :
    let (m1, came) = on_dynamic_sensors_connected mask 3 (light ∷ pick_up ∷ []) [] in
    let (m2, went) = on_dynamic_sensors_disconnected mask 3 (5 ∷ []) m1 in
    find ℕ_discrete (set_sub_hal_index 6 3) m2 ≡ (
      if contains (set_sub_hal_index 6 3) went
      then none
      else latest mask 3 (set_sub_hal_index 6 3) came (find ℕ_discrete (set_sub_hal_index 6 3) []))
find-on_dynamic_sensors_example =
    find-on_dynamic_sensors mask 3 (light ∷ pick_up ∷ []) (5 ∷ []) [] (set_sub_hal_index 6 3)

-- What the proxy knows of a handle: the pick-up gesture.
abbrev pub info : ℕ → SensorInfo
info handle = record pick_up { sensor_handle = handle; sensor_type = 25 }

post_events_assertion_example :
    post_events multihal info 3 true (lowered ∷ []) true
    ≡ some (record { events = []; num_wakeup_events = 0; assertion_holds = false })
post_events_assertion_example = post_events_assertion multihal info 3 lowered [] (refl, tt)
