-- ===== src/Sensors/EventQueue/Dropped/Laws.antt =====
-- How much is given back, and what becomes of the map.
use device_xiaomi_camellia.Base.{
  ℕ, suc, ◌+◌, ◌*◌, ◌≤◌, ◌<◌, ◌≡◌, refl, bit_and, Bool, true, false, Option, none, some, List, [],
  ◌∷◌, arith, length, take, drop, length-drop, ◌==◌, if◌then◌else◌, Option-cases, ==_iff, inl, inr,
}
use device_xiaomi_camellia.Base.Bits.{zero-bit_and}
use device_xiaomi_camellia.Base.Dict.{find, find-insert}
use native.Mathlib.Decide.{ℕ_discrete}
use device_xiaomi_camellia.Sensors.Platform.{Platform, SensorInfo, Event}
use device_xiaomi_camellia.Sensors.EventQueue.Dropped.{
  Sensors, empty_sensor, at_handle, count_loop, count_num_wakeup_events, give_back,
}

module _ (p : Platform) where
  -- Whether a handle is that of a listed sensor that wakes the device up.
  abbrev pub wakes : Sensors → ℕ → Bool
  wakes sensors handle = elim (find ℕ_discrete handle sensors) [
    | none ↦ false
    | some sensor ↦ if bit_and sensor.flags p.wake_up == 0 then false else true
  ]

  -- The wake-up events of a list.
  pub wakeups : Sensors → List Event → ℕ
  wakeups sensors [] = 0
  wakeups sensors (event ∷ events) =
      let rest = wakeups sensors events in
      if wakes sensors event.sensor_handle then suc rest else rest

  at_handle_lem :
      (handle other : ℕ) (sensors : Sensors)
      → find ℕ_discrete other (at_handle handle sensors).1 ≡ (elim (find ℕ_discrete other sensors) [
        | some sensor ↦ some sensor
        | none ↦ if handle == other then some empty_sensor else none
      ])
  unfolding at_handle
  at_handle_lem handle other sensors =
      ground (arith, find-insert ℕ_discrete other handle empty_sensor sensors, ==_iff handle other)

  -- An event of a list has a handle.
  pub has_handle : ℕ → List Event → Bool
  has_handle handle [] = false
  has_handle handle (event ∷ events) =
      let rest = has_handle handle events in if event.sensor_handle == handle then true else rest

  -- The sensor under a handle after a count.
  abbrev pub found : ℕ → List Event → Sensors → Option SensorInfo
  found handle events sensors = elim (find ℕ_discrete handle sensors) [
    | some sensor ↦ some sensor
    | none ↦ if has_handle handle events then some empty_sensor else none
  ]

  find-count_loop :
      (events : List Event) (n : ℕ) (sensors : Sensors) (handle : ℕ)
      → find ℕ_discrete handle (count_loop p events n sensors).1 ≡ found handle events sensors
  unfolding count_loop has_handle
  find-count_loop [] n sensors handle = elim (Option-cases (find ℕ_discrete handle sensors)) [
    | inl e ↦ ground (arith, e)
    | inr (sensor, e) ↦ ground (arith, e)
  ]
  find-count_loop (event ∷ events) n sensors handle =
      let sensors' = (at_handle event.sensor_handle sensors).1 in
      ground (
        arith,
        at_handle_lem event.sensor_handle handle sensors,
        find-count_loop events n sensors' handle,
        find-count_loop events (n + 1) sensors' handle,
      )

  wakes_after :
      (handle other : ℕ) (sensors : Sensors)
      → wakes (at_handle handle sensors).1 other ≡ wakes sensors other
  wakes_after handle other sensors =
      ground (arith, at_handle_lem handle other sensors, zero-bit_and p.wake_up)

  wakeups_after :
      (handle : ℕ) (sensors : Sensors) (events : List Event)
      → wakeups (at_handle handle sensors).1 events ≡ wakeups sensors events
  unfolding wakeups
  wakeups_after handle sensors [] = refl
  wakeups_after handle sensors (event ∷ events) =
      ground
        (arith, wakeups_after handle sensors events, wakes_after handle event.sensor_handle sensors)

  sensor_wakes :
      (handle : ℕ) (sensors : Sensors)
      → (if bit_and (at_handle handle sensors).0.flags p.wake_up == 0 then false else true)
        ≡ wakes sensors handle
  unfolding at_handle
  sensor_wakes handle sensors = ground (arith, zero-bit_and p.wake_up)

  count_loop_lem :
      (events : List Event) (n : ℕ) (sensors : Sensors)
      → (count_loop p events n sensors).0 ≡ n + wakeups sensors events
  unfolding count_loop wakeups
  count_loop_lem [] n sensors = omega arith
  count_loop_lem (event ∷ events) n sensors =
      let sensors' = (at_handle event.sensor_handle sensors).1 in
      ground (
        arith,
        sensor_wakes event.sensor_handle sensors,
        wakeups_after event.sensor_handle sensors events,
        count_loop_lem events n sensors',
        count_loop_lem events (n + 1) sensors',
      )

  -- Counting wake-up events changes the map: every handle of an event that was not listed is
  -- listed afterwards, as an empty sensor, and the sensors that were listed stay.
  pub find-count_num_wakeup_events :
      (events : List Event) (n : ℕ) (sensors : Sensors) (handle : ℕ)
      → find ℕ_discrete handle (count_num_wakeup_events p events n sensors).1
        ≡ (elim (find ℕ_discrete handle sensors) [
          | some sensor ↦ some sensor
          | none ↦ if has_handle handle (take n events) then some empty_sensor else none
        ])
  unfolding count_num_wakeup_events
  find-count_num_wakeup_events events n sensors handle =
      find-count_loop (take n events) 0 sensors handle

  -- If the events of a post are dropped in two writes, the first gives back its own wake-up events
  -- and the second all that the post took, so that those of the first write are given back twice.
  pub give_back_twice :
      (quantum : ℕ) (events : List Event) (num_wakeup_events : ℕ) (sensors : Sensors)
      → 0 < num_wakeup_events
      → quantum < length events
      → length events ≤ 2 * quantum
      → let (first, sensors') = give_back p quantum events num_wakeup_events sensors in
        let (second, _) = give_back p quantum (drop quantum events) num_wakeup_events sensors' in
        (first ≡ some (wakeups sensors (take quantum events))) × (second ≡ some num_wakeup_events)
  unfolding give_back count_num_wakeup_events
  give_back_twice quantum events n sensors some_wakeup more fits =
      ground (arith, count_loop_lem (take quantum events) 0 sensors, length-drop quantum events)
