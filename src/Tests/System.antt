-- ===== src/Tests/System.antt =====
-- Small inputs for the threads of sensors/HalProxy.cpp together.
use device_xiaomi_camellia.Base.{
  ℕ, ◌≡◌, refl, true, false, arith, none, [], ◌∷◌, ◌++◌, take, drop, Bool, ltb, ◌+◌, inl,
}
use device_xiaomi_camellia.Sensors.Platform.{multihal, normal, OperationMode, Platform, Event}
use device_xiaomi_camellia.Sensors.Wakelock.{increment_ref_count_and_maybe_acquire_wakelock}
use device_xiaomi_camellia.Sensors.EventQueue.{
  empty, offer, post_events_to_message_queue, num_to_write, is_kept,
}
use device_xiaomi_camellia.Sensors.EventQueue.Order.{undelivered}
use device_xiaomi_camellia.Sensors.Proxy.{HalProxy, post_events}
use device_xiaomi_camellia.Sensors.Callback.{post_events as callback_post_events, process_events}
use device_xiaomi_camellia.Sensors.System.{
  System, wakeups, IsInitial, Asserts, acquires, posts, Reach, start, later, acquire,
  step_pending_writes, post_from_sub_hal, read_processed, release, reads, releases,
}
use device_xiaomi_camellia.Sensors.System.Sums.{given, on_the_way}
use device_xiaomi_camellia.Sensors.System.Preserved.{IsConsistent}
use device_xiaomi_camellia.Sensors.System.Parts.{
  Run, steps, halts, clears, restarts, posts_late, halt_system, restart_system, Run-IsConsistent,
}
use device_xiaomi_camellia.Sensors.System.Lost.{initialize_around, initialize_around-post_events}
use device_xiaomi_camellia.Sensors.EventQueue.Invariant.{total}
use device_xiaomi_camellia.Sensors.Initialize.{halt, clear_pending, clear_size}
use device_xiaomi_camellia.Sensors.System.Balance.{held_while_waking}
use device_xiaomi_camellia.Sensors.System.Released.{AllRoomy, IsRoomy, held_exactly}
use device_xiaomi_camellia.Sensors.System.Leaked.{held_after_overflow}
use device_xiaomi_camellia.Sensors.System.Refused.{post_refused}
use device_xiaomi_camellia.Sensors.System.Filtered.{AllCount, Reach-AllCount}
use device_xiaomi_camellia.Sensors.Handle.{set_sub_hal_index}
use device_xiaomi_camellia.Tests.Sensors.{raised, lowered, info, unused}
use device_xiaomi_camellia.Tests.Proxy.{handover, two_sub_hals, all_normal}

abbrev constructed : HalProxy
constructed = record {
  sensors = [];
  direct_channel_sub_hal = none;
  dynamic_sensors = [];
  current_operation_mode = normal;
  wakelock = unused;
  queue = empty;
}

abbrev first : System (ℕ → OperationMode)
first = record { proxy = constructed; world = all_normal; holders = 0; processed = 0 }

first-IsInitial : IsInitial first
first-IsInitial = record {
  no_dynamic = refl;
  nothing_posted = refl;
  nothing_counted = refl;
  not_held = refl;
  no_holders = refl;
  none_processed = refl;
}

-- A sub-HAL takes a wake lock and posts a gesture, for which there is no room in the message queue.
abbrev locked : System (ℕ → OperationMode)
locked = acquire 5 first

gesture-Asserts : Asserts multihal info 1 true (raised ∷ lowered ∷ []) locked.proxy
unfolding acquire increment_ref_count_and_maybe_acquire_wakelock callback_post_events process_events
gesture-Asserts posted e = cc

abbrev posted : System (ℕ → OperationMode)
posted = record locked {
  proxy = post_from_sub_hal multihal info 1 6 true 0 true (raised ∷ lowered ∷ []) locked.proxy;
}

posted-Reach : {faults : Bool} → Reach multihal two_sub_hals info faults first posted
unfolding acquire increment_ref_count_and_maybe_acquire_wakelock
posted-Reach =
    later (later start (acquires 5 (omega arith)))
      (posts 1 6 0 true true (raised ∷ lowered ∷ []) gesture-Asserts (omega arith))

-- Then the proxy is initialized, and a post goes on after its threads were stopped.
abbrev halted : System (ℕ → OperationMode)
halted = halt_system multihal two_sub_hals 20 21 posted

abbrev late : System (ℕ → OperationMode)
late = record halted { proxy = post_events multihal 22 true 0 true (raised ∷ []) 1 halted.proxy }

abbrev restarted : System (ℕ → OperationMode)
restarted =
    restart_system multihal two_sub_hals handover
      (record late { proxy = clear_size (clear_pending late.proxy) })

steps_of :
    {s : System (ℕ → OperationMode)}
    → Reach multihal two_sub_hals info true first s
    → Run multihal two_sub_hals info true first s
steps_of Reach.start = Run.start
steps_of (Reach.later r step) = Run.later (steps_of r) (steps step)

restarted-Run : Run multihal two_sub_hals info true first restarted
unfolding acquire increment_ref_count_and_maybe_acquire_wakelock halt_system halt post_from_sub_hal
    callback_post_events process_events post_events
restarted-Run =
    Run.later
      (Run.later
        (Run.later (Run.later (steps_of posted-Reach) (halts 20 21))
          (posts_late 22 0 true true (raised ∷ []) 1 (λ l. omega arith) (omega arith)))
        clears)
      (restarts handover)

Run-IsConsistent_example : IsConsistent multihal restarted.proxy
Run-IsConsistent_example = Run-IsConsistent multihal two_sub_hals info restarted-Run first-IsInitial

initialize_around-post_events_example :
    let proxy' =
      initialize_around multihal two_sub_hals
        (post_events multihal 22 true 0 true (raised ∷ lowered ∷ []) 2)
        20
        21
        handover
        constructed
        all_normal in
    (total proxy'.queue.pending ≡ 2)
    × (proxy'.queue.size_pending ≡ 0)
    × (proxy'.wakelock.ref_count ≡ 0)
    × (proxy'.wakelock.threads_run ≡ true)
unfolding num_to_write
initialize_around-post_events_example =
    initialize_around-post_events multihal two_sub_hals 20 21 22 2 0 true true
      (raised ∷ lowered ∷ []) handover constructed all_normal (omega arith) (omega arith)

Reach-AllCount_example : AllCount multihal info posted.proxy.queue
Reach-AllCount_example =
    Reach-AllCount multihal two_sub_hals info (posted-Reach {faults = true}) first-IsInitial

held_while_waking_example : posted.proxy.wakelock.held ≡ true
unfolding given on_the_way wakeups undelivered acquire
    increment_ref_count_and_maybe_acquire_wakelock post_from_sub_hal callback_post_events
    process_events post_events post_events_to_message_queue num_to_write is_kept
held_while_waking_example =
    held_while_waking multihal two_sub_hals info posted-Reach first-IsInitial (omega arith)

held_exactly_example :
    posted.proxy.wakelock.held
    ≡ ltb posted.processed (
        given multihal info posted.proxy.queue
        + on_the_way multihal info posted.proxy.queue
        + posted.holders)
unfolding posted-Reach AllRoomy IsRoomy acquire increment_ref_count_and_maybe_acquire_wakelock
held_exactly_example =
    held_exactly multihal two_sub_hals info posted-Reach ((tt, tt), omega arith) first-IsInitial
      refl

-- A platform without room for pending events: of two gestures the second is dropped.
abbrev narrow : Platform
narrow = record multihal { max_size_pending_write_events_queue = 0 }

abbrev overflown : System (ℕ → OperationMode)
overflown = record locked {
  proxy = post_from_sub_hal narrow info 1 6 true 1 true (raised ∷ raised ∷ []) locked.proxy;
}

abbrev pub marked : Event
marked = record raised { sensor_handle = set_sub_hal_index 5 1 }

-- The first gesture is processed, and the scoped wake lock is given back.
held_after_overflow_example : (release 5 0 (read_processed 1 overflown)).proxy.wakelock.held ≡ true
unfolding acquire increment_ref_count_and_maybe_acquire_wakelock post_from_sub_hal
    callback_post_events process_events post_events post_events_to_message_queue num_to_write
    is_kept wakeups read_processed
held_after_overflow_example =
    held_after_overflow narrow two_sub_hals info 1 6 1 true true (raised ∷ raised ∷ [])
      (later start (acquires 5 (omega arith))) first-IsInitial
      (record { events = marked ∷ marked ∷ []; num_wakeup_events = 2; assertion_holds = true }) refl
      refl (omega arith) (omega arith) (omega arith)
      (later (later start (reads 1 (inl (omega arith)))) (releases 5 0 refl))

-- A post finds no room at all, and its references stay counted.
abbrev without_room : HalProxy
without_room =
    post_events (record multihal { max_size_pending_write_events_queue = 0 }) 6 true 0 true
      (raised ∷ raised ∷ []) 2 constructed

without_room_counted :
    (without_room.queue.pending ≡ [])
    × (without_room.queue.handed ≡ [])
    × (without_room.wakelock.ref_count ≡ 2)
    × (without_room.wakelock.held ≡ true)
unfolding post_events post_events_to_message_queue num_to_write is_kept
    increment_ref_count_and_maybe_acquire_wakelock
without_room_counted = (refl, refl, refl, refl)

post_refused_example :
    let posted = post_events multihal 6 true 1 true (raised ∷ raised ∷ []) 2 constructed in
    let begun = step_pending_writes multihal 8 true posted in
    let refused = step_pending_writes multihal 8 false begun in
    (refused.wakelock.ref_count ≡ 0)
    × (refused.queue.handed
        ≡ []
          ++ offer true (take 1 (raised ∷ raised ∷ []))
          ++ offer false (drop 1 (raised ∷ raised ∷ [])))
post_refused_example =
    post_refused multihal 6 1 2 8 (raised ∷ raised ∷ []) constructed refl refl refl (omega arith)
      (omega arith) (omega arith) (omega arith) (omega arith)
