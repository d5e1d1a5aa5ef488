-- ===== src/Sensors/System/Released.antt =====
-- The wake lock is given back when nothing is left to do.
use device_xiaomi_camellia.Base.{ℕ, ◌+◌, ◌≤◌, ◌≡◌, inl, inr, true, false, arith, length, ltb}
use device_xiaomi_camellia.Sensors.Platform.{Platform, SensorInfo}
use device_xiaomi_camellia.Sensors.EventQueue.{step}
use device_xiaomi_camellia.Sensors.EventQueue.Order.{HasFront, undelivered}
use device_xiaomi_camellia.Sensors.Proxy.{SubHals}
use device_xiaomi_camellia.Sensors.Proxy.Modes.{set_operation_mode_keeps}
use device_xiaomi_camellia.Sensors.System.{
  connect, disconnect, switch_operation_mode, connects, disconnects, switches, calls, wakeups,
  IsInitial, System, Step, acquires, releases, posts, writes, begins, reads, initializes, Reach,
  start, later,
}
use device_xiaomi_camellia.Sensors.System.Consistent.{Reach-IsConsistent}
use device_xiaomi_camellia.Sensors.System.Sums.{given, on_the_way}
use device_xiaomi_camellia.Sensors.System.Balance.{IsBalanced, Reach-IsBalanced}
use device_xiaomi_camellia.Sensors.System.Returned.{
  IsReturned, acquire-IsReturned, release-IsReturned, read_processed-IsReturned, begin-IsReturned,
  write-IsReturned, post-IsReturned,
}

module _ {W : Type 0} (p : Platform) (S : SubHals W) (info : ℕ → SensorInfo) where
  -- A post finds room for all its events, and a scoped wake lock is given back that was taken
  -- after the last reset.
  unfoldable pub IsRoomy : {s t : System W} → Step p S info false s t → Type 0
  IsRoomy {s = s} (posts sub_hal now available locked takes events asserts room) =
      s.proxy.queue.size_pending + length events ≤ p.max_size_pending_write_events_queue
  IsRoomy {s = s} (releases taken holders e) = s.proxy.wakelock.timeout_reset_time ≤ taken
  IsRoomy _ = Unit

  unfoldable pub AllRoomy : {first s : System W} → Reach p S info false first s → Type 0
  unfolding IsRoomy
  AllRoomy start = Unit
  AllRoomy (later r step) = AllRoomy r × IsRoomy step

  Step-IsReturned :
      {s t : System W} (step : Step p S info false s t)
      → IsRoomy step
      → HasFront s.proxy.queue
      → IsBalanced p info 0 s
      → IsReturned p info s
      → IsReturned p info t
  unfolding IsRoomy given connect disconnect switch_operation_mode
  Step-IsReturned {s = s} (acquires now room) roomy front balanced h =
      acquire-IsReturned p S info now s room h
  Step-IsReturned {s = s} (releases taken holders e) roomy front balanced h =
      release-IsReturned p S info taken holders s e roomy balanced h
  Step-IsReturned {s = s} (posts sub_hal now available locked takes events asserts room) roomy front
        balanced h =
      post-IsReturned p S info sub_hal now available locked takes events s asserts room roomy front
        h
  Step-IsReturned {s = s} (writes quantum takes (inl e)) roomy front balanced h =
      rw (e) (write-IsReturned p S info quantum s front h)
  Step-IsReturned {s = s} (begins now after (inl early)) roomy front balanced h =
      begin-IsReturned p S info now after s early h
  Step-IsReturned {s = s} (reads n (inl few)) roomy front balanced h =
      read_processed-IsReturned p S info n s few h
  Step-IsReturned {s = s} (writes quantum takes (inr e)) roomy front balanced h = cc
  Step-IsReturned {s = s} (begins now after (inr e)) roomy front balanced h = cc
  Step-IsReturned {s = s} (reads n (inr e)) roomy front balanced h = cc
  Step-IsReturned {s = s} (connects sub_hal added) roomy front balanced h = record {
    returned = h.returned;
    running = h.running;
  }
  Step-IsReturned {s = s} (disconnects sub_hal removed) roomy front balanced h = record {
    returned = h.returned;
    running = h.running;
  }
  Step-IsReturned {s = s} (switches mode) roomy front balanced h =
      let kept = set_operation_mode_keeps S mode s.proxy s.world in
      record { returned = rw (kept.0, kept.1) h.returned; running = rw (kept.0) h.running }
  Step-IsReturned {s = s} (calls world) roomy front balanced h = record {
    returned = h.returned;
    running = h.running;
  }
  Step-IsReturned {s = s} (initializes ended now h' e) roomy front balanced h = cc

  IsInitial-IsReturned :
      (s : System W) → IsInitial s → s.proxy.wakelock.threads_run ≡ true → IsReturned p info s
  unfolding given on_the_way undelivered wakeups
  IsInitial-IsReturned s h runs =
      ground (arith, h.nothing_posted, h.nothing_counted, h.no_holders, h.none_processed, runs)

  Reach-IsReturned :
      {first s : System W} (r : Reach p S info false first s)
      → AllRoomy r
      → IsInitial first
      → first.proxy.wakelock.threads_run ≡ true
      → IsReturned p info s
  unfolding AllRoomy
  Reach-IsReturned {first = first} start roomy h runs = IsInitial-IsReturned first h runs
  Reach-IsReturned (later r step) (roomy, here) h runs =
      Step-IsReturned step here (Reach-IsConsistent p S info r h).fronted
        (Reach-IsBalanced p S info r h) (Reach-IsReturned r roomy h runs)

  -- From a proxy as it is constructed with its threads, while each post passes the callback's
  -- assertion and has room in the counter of references and for all its events in the queue, the
  -- message queue takes its events, the wake lock does not time out, no scoped wake lock is given
  -- back that was taken before the last reset, and the framework reports at most what it was
  -- offered: the kernel's wake lock is held exactly while a wake-up event that a sub-HAL posted and
  -- that passed the filter is not reported as processed or a sub-HAL has a scoped wake lock.
  pub held_exactly :
      {first s : System W} (r : Reach p S info false first s)
      → AllRoomy r
      → IsInitial first
      → first.proxy.wakelock.threads_run ≡ true
      → s.proxy.wakelock.held
        ≡ ltb s.processed (given p info s.proxy.queue + on_the_way p info s.proxy.queue + s.holders)
  held_exactly r roomy h runs =
      let balanced = Reach-IsBalanced p S info r h in
      let back = Reach-IsReturned r roomy h runs in
      ground (arith, (Reach-IsConsistent p S info r h).agrees, balanced.covered, back.returned)
