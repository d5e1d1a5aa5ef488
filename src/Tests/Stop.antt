-- ===== src/Tests/Stop.antt =====
-- The calls of `stopThreads` in sensors/HalProxy.cpp while one thread sleeps and the other one is
-- about to, and the signal in usb/Usb.cpp while the worker thread is about to wait.
use device_xiaomi_camellia.Base.{◌≡◌, refl, true, false, List, [], ◌∷◌, ◌++◌, arith}
use device_xiaomi_camellia.Usb.Port.Work.Signal.{
  at_loop as at_test, walk, advance, is_before_wait, is_ended, kill_and_join,
}
use device_xiaomi_camellia.Usb.Port.Work.Joins.{kill_and_join_lem, any_event}
use device_xiaomi_camellia.Sensors.Stop.{
  Threads, Thread, Move, pending_writes_thread, wakelock_thread, goes_on, at_loop, joins,
  stop_calls,
}
use device_xiaomi_camellia.Sensors.Stop.Laws.{joins-stop_calls, moves_of, misses}
use device_xiaomi_camellia.Sensors.Stop.Walk.{goes_alone}

abbrev started : Threads
started = record { threads_run = true; pending_writes = at_loop; wakelock = at_loop }

abbrev both_go_on : List (Thread × Move)
both_go_on = (pending_writes_thread, goes_on false) ∷ (wakelock_thread, goes_on false) ∷ []

abbrev to_sleep : List (Thread × Move)
to_sleep = both_go_on ++ both_go_on ++ both_go_on

joins-stop_calls_example :
    joins (
      stop_calls
        (both_go_on ++ both_go_on)
        ((wakelock_thread, goes_on false) ∷ [])
        []
        to_sleep
        started)
    ≡ false
unfolding goes_alone moves_of misses
joins-stop_calls_example =
    joins-stop_calls (both_go_on ++ both_go_on) ((wakelock_thread, goes_on false) ∷ []) [] to_sleep
      started refl (omega arith) refl (omega arith)

both_asleep : joins (stop_calls to_sleep [] [] to_sleep started) ≡ true
unfolding joins stop_calls
both_asleep = refl

kill_and_join_lem_example :
    (is_ended (kill_and_join (false ∷ []) (false ∷ false ∷ []) at_test) ≡ false)
    × (is_ended
          (kill_and_join (false ∷ []) ((false ∷ false ∷ []) ++ true ∷ false ∷ false ∷ []) at_test)
        ≡ true)
unfolding any_event walk advance is_before_wait
kill_and_join_lem_example =
    kill_and_join_lem (false ∷ []) (false ∷ false ∷ []) false false [] at_test (omega arith) refl
