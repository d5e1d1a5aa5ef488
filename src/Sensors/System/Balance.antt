-- ===== src/Sensors/System/Balance.antt =====
-- Wake-up events on their way hold the wake lock.
use device_xiaomi_camellia.Base.{
  ℕ, suc, ◌+◌, ◌≤◌, ◌<◌, ◌^◌, ◌≡◌, inl, inr, Bool, true, false, Option, none, List, arith, length,
  Option-cases,
}
use device_xiaomi_camellia.Sensors.Platform.{Platform, SensorInfo, Event}
use device_xiaomi_camellia.Sensors.Wakelock.{
  increment_ref_count_and_maybe_acquire_wakelock, decrement_ref_count_and_maybe_release_wakelock,
  handle_wakelocks_begin, handle_wakelocks_end,
}
use device_xiaomi_camellia.Sensors.EventQueue.{step, Writer}
use device_xiaomi_camellia.Sensors.EventQueue.Order.{HasFront, undelivered}
use device_xiaomi_camellia.Sensors.Callback.{Posted, post_events as callback_post_events}
use device_xiaomi_camellia.Sensors.Callback.Laws.{count_wakeups-length}
use device_xiaomi_camellia.Sensors.Proxy.{SubHals, HalProxy, post_events}
use device_xiaomi_camellia.Sensors.Proxy.Modes.{set_operation_mode_keeps}
use device_xiaomi_camellia.Sensors.System.{
  connect, disconnect, switch_operation_mode, connects, disconnects, switches, calls, wakeups,
  IsInitial, System, returned, give, step_pending_writes, post_from_sub_hal, Asserts, acquire,
  release, read_processed, with_wakelock, Step, acquires, releases, posts, writes, begins, reads,
  initializes, Reach, start, later, decrement_ref_count_and_maybe_release_wakelock,
  increment_ref_count_and_maybe_acquire_wakelock, handle_wakelocks_end, handle_wakelocks_begin,
  Sensors,
}
use device_xiaomi_camellia.Sensors.System.Preserved.{callback_post_events-IsPosted}
use device_xiaomi_camellia.Sensors.System.Consistent.{Reach-IsConsistent}
use device_xiaomi_camellia.Sensors.System.Sums.{
  given, on_the_way, count_wakeups-wakeups, post_sum, next_write_sum,
}

-- References are counted for all wake-up events that the framework has not reported as processed,
-- for all scoped wake locks, and for `lost` events more; the framework reports at most what it was
-- offered.
pub record IsBalanced {W : Type 0} (p : Platform) (info : ℕ → SensorInfo) (lost : ℕ) (s : System W)
    : Type 0 where
  pub covered :
      given p info s.proxy.queue + on_the_way p info s.proxy.queue + s.holders + lost
      ≤ s.processed + s.proxy.wakelock.ref_count
  pub reported : s.processed ≤ given p info s.proxy.queue

module _ {W : Type 0} (p : Platform) (S : SubHals W) (info : ℕ → SensorInfo) (lost : ℕ) where
  acquire-IsBalanced :
      (now : ℕ) (s : System W)
      → s.proxy.wakelock.ref_count + 1 < 2 ^ 64
      → IsBalanced p info lost s
      → IsBalanced p info lost (acquire now s)
  unfolding acquire increment_ref_count_and_maybe_acquire_wakelock
  acquire-IsBalanced now s room h = ground (arith, h.covered, h.reported)

  release-IsBalanced :
      (taken holders : ℕ) (s : System W)
      → s.holders ≡ suc holders
      → IsBalanced p info lost s
      → IsBalanced p info lost (release taken holders s)
  unfolding release decrement_ref_count_and_maybe_release_wakelock
  release-IsBalanced taken holders s e h = ground (arith, h.covered, h.reported)

  read_processed-IsBalanced :
      (n : ℕ) (s : System W)
      → s.processed + n ≤ given p info s.proxy.queue
      → IsBalanced p info lost s
      → IsBalanced p info lost (read_processed n s)
  unfolding read_processed handle_wakelocks_end decrement_ref_count_and_maybe_release_wakelock
  read_processed-IsBalanced n s few h = ground (arith, h.covered, h.reported)

  begin-IsBalanced :
      (now after : ℕ) (s : System W)
      → now ≤ s.proxy.wakelock.timeout_start_time + p.wakelock_timeout_ns
      → IsBalanced p info lost s
      → IsBalanced p info lost (
          with_wakelock
            (handle_wakelocks_begin p.wakelock_timeout_ns now after s.proxy.wakelock).0
            s)
  unfolding handle_wakelocks_begin
  begin-IsBalanced now after s early h = ground (arith, h.covered, h.reported)

  pub returned-none :
      (w : Writer) (pending : List (List Event × ℕ)) (sensors : Sensors)
      → returned p true w pending sensors ≡ (none, sensors)
  unfolding returned
  returned-none w pending sensors = ground arith

  write-IsBalanced :
      (quantum : ℕ) (s : System W)
      → HasFront s.proxy.queue
      → IsBalanced p info lost s
      → IsBalanced p info lost (record s { proxy = step_pending_writes p quantum true s.proxy })
  unfolding step_pending_writes give
  write-IsBalanced quantum s front h =
      let none_given = returned-none s.proxy.queue.writer s.proxy.queue.pending s.proxy.sensors in
      let sum =
        next_write_sum p info s.proxy.wakelock.threads_run quantum true s.proxy.queue front in
      rw (none_given) (record {
        covered = omega (arith, sum.0, h.covered);
        reported = omega (arith, sum.1, h.reported);
      })

  -- Where the callback passes its assertion, a post counts the wake-up events that it brings.
  pub counted_post :
      (now : ℕ) (locked : Bool) (available : ℕ) (takes : Bool) (n : ℕ) (events : List Event)
      (proxy : HalProxy)
      → (locked ≡ false → n ≡ 0)
      → proxy.wakelock.threads_run ≡ true
      → proxy.wakelock.ref_count + n < 2 ^ 64
      → (post_events p now locked available takes events n proxy).wakelock.ref_count
        ≡ proxy.wakelock.ref_count + n
  unfolding post_events increment_ref_count_and_maybe_acquire_wakelock
  counted_post now locked available takes n events proxy free runs room = ground (arith, free)

  post-IsBalanced :
      (sub_hal now available : ℕ) (locked takes : Bool) (events : List Event) (s : System W)
      → Asserts p info sub_hal locked events s.proxy
      → s.proxy.wakelock.ref_count + length events < 2 ^ 64
      → HasFront s.proxy.queue
      → IsBalanced p info lost s
      → IsBalanced p info lost (record s {
        proxy = post_from_sub_hal p info sub_hal now locked available takes events s.proxy;
      })
  unfolding post_from_sub_hal
  post-IsBalanced sub_hal now available locked takes events s asserts room front h =
      elim (Option-cases posting) [
        | inl e ↦ rw (e, post_from_sub_hal) h
        | inr (posted, e) ↦
            let is = callback_post_events-IsPosted p info sub_hal _ locked events posted e in
            let few = count_wakeups-length p info sub_hal events in
            let n = posted.num_wakeup_events in
            let same = count_wakeups-wakeups p info sub_hal posted.events in
            let sum = post_sum p info now locked available takes posted.events n s.proxy front in
            let count =
              counted_post now locked available takes n posted.events s.proxy
                (λ l. ground (arith, asserts posted e, is.asserted, l)) is.running
                (ground (arith, is.counted, is.handed)) in
            rw (e, post_from_sub_hal)
              (record {
                covered = omega (arith, sum.0, count, same, is.counted, h.covered);
                reported = omega (arith, sum.1, h.reported);
              })
      ]
    where
      posting : Option (Posted p info sub_hal)
      posting = callback_post_events p info sub_hal s.proxy.wakelock.threads_run events locked

  pub Step-IsBalanced :
      {s t : System W}
      → Step p S info false s t
      → HasFront s.proxy.queue
      → IsBalanced p info lost s
      → IsBalanced p info lost t
  unfolding given connect disconnect switch_operation_mode
  Step-IsBalanced {s = s} (acquires now room) front h = acquire-IsBalanced now s room h
  Step-IsBalanced {s = s} (releases taken holders e) front h =
      release-IsBalanced taken holders s e h
  Step-IsBalanced {s = s} (posts sub_hal now available locked takes events asserts room) front h =
      post-IsBalanced sub_hal now available locked takes events s asserts room front h
  Step-IsBalanced {s = s} (writes quantum takes (inl e)) front h =
      rw (e) (write-IsBalanced quantum s front h)
  Step-IsBalanced {s = s} (begins now after (inl early)) front h =
      begin-IsBalanced now after s early h
  Step-IsBalanced {s = s} (reads n (inl few)) front h = read_processed-IsBalanced n s few h
  Step-IsBalanced {s = s} (writes quantum takes (inr e)) front h = cc
  Step-IsBalanced {s = s} (begins now after (inr e)) front h = cc
  Step-IsBalanced {s = s} (reads n (inr e)) front h = cc
  Step-IsBalanced {s = s} (connects sub_hal added) front h = record {
    covered = h.covered;
    reported = h.reported;
  }
  Step-IsBalanced {s = s} (disconnects sub_hal removed) front h = record {
    covered = h.covered;
    reported = h.reported;
  }
  Step-IsBalanced {s = s} (switches mode) front h =
      let kept = set_operation_mode_keeps S mode s.proxy s.world in
      record { covered = rw (kept.0, kept.1) h.covered; reported = rw (kept.1) h.reported }
  Step-IsBalanced {s = s} (calls world) front h = record {
    covered = h.covered;
    reported = h.reported;
  }
  Step-IsBalanced {s = s} (initializes ended now h' e) front h = cc

module _ {W : Type 0} (p : Platform) (S : SubHals W) (info : ℕ → SensorInfo) where
  IsInitial-IsBalanced : (s : System W) → IsInitial s → IsBalanced p info 0 s
  unfolding given on_the_way undelivered wakeups
  IsInitial-IsBalanced s h =
      ground (arith, h.nothing_posted, h.nothing_counted, h.no_holders, h.none_processed)

  pub Reach-IsBalanced :
      {first s : System W} → Reach p S info false first s → IsInitial first → IsBalanced p info 0 s
  Reach-IsBalanced {first = first} start h = IsInitial-IsBalanced first h
  Reach-IsBalanced (later r step) h =
      Step-IsBalanced p S info 0 step (Reach-IsConsistent p S info r h).fronted
        (Reach-IsBalanced r h)

  -- From a proxy as it is constructed, while each post passes the callback's assertion and has
  -- room in the counter of references, the message queue takes its events, the wake lock does not
  -- time out and the framework reports at most what it was offered, the kernel's wake lock is held
  -- as long as any wake-up event that the proxy accepted, pending or offered, is not reported as
  -- processed or a sub-HAL has a scoped wake lock, however the posts, the two threads and the
  -- framework interleave.
  pub held_while_waking :
      {first s : System W}
      → Reach p S info false first s
      → IsInitial first
      → s.processed < given p info s.proxy.queue + on_the_way p info s.proxy.queue + s.holders
      → s.proxy.wakelock.held ≡ true
  held_while_waking r h waiting =
      let balanced = Reach-IsBalanced r h in
      ground (arith, (Reach-IsConsistent p S info r h).agrees, balanced.covered)
