-- ===== src/Sensors/System/Returned.antt =====
-- The references that the wake lock counts are given back: what each step does to their number.
use device_xiaomi_camellia.Base.{
  ℕ, suc, ◌+◌, ◌≤◌, ◌<◌, ◌^◌, ◌≡◌, ◌∙◌, inl, inr, Bool, true, false, Option, List, arith, length,
  Option-cases,
}
use device_xiaomi_camellia.Sensors.Platform.{Platform, SensorInfo, Event}
use device_xiaomi_camellia.Sensors.Wakelock.{
  increment_ref_count_and_maybe_acquire_wakelock, decrement_ref_count_and_maybe_release_wakelock,
  handle_wakelocks_begin, handle_wakelocks_end,
}
use device_xiaomi_camellia.Sensors.EventQueue.{num_to_write, is_kept, post, step}
use device_xiaomi_camellia.Sensors.EventQueue.Order.{HasFront, accepted, take_min}
use device_xiaomi_camellia.Sensors.Callback.{Posted, post_events as callback_post_events}
use device_xiaomi_camellia.Sensors.Proxy.{SubHals, post_events}
use device_xiaomi_camellia.Sensors.System.{
  wakeups, System, give, step_pending_writes, post_from_sub_hal, Asserts, acquire, release,
  read_processed, with_wakelock,
}
use device_xiaomi_camellia.Sensors.System.Preserved.{callback_post_events-IsPosted}
use device_xiaomi_camellia.Sensors.System.Sums.{
  given, on_the_way, count_wakeups-wakeups, step_sum, next_write_sum,
}
use device_xiaomi_camellia.Sensors.System.Balance.{IsBalanced, counted_post, returned-none}
use device_xiaomi_camellia.Sensors.Callback.Laws.{count_wakeups-length, survivors-length}

-- No more references are counted than there are wake-up events that the framework has not reported
-- as processed and scoped wake locks.
pub record IsReturned {W : Type 0} (p : Platform) (info : ℕ → SensorInfo) (s : System W)
    : Type 0 where
  pub returned :
      s.processed + s.proxy.wakelock.ref_count
      ≤ given p info s.proxy.queue + on_the_way p info s.proxy.queue + s.holders
  pub running : s.proxy.wakelock.threads_run ≡ true

accepted-all :
    (limit available : ℕ) (takes : Bool) (events : List Event) (n : ℕ)
    (q : device_xiaomi_camellia.Sensors.EventQueue.EventQueue)
    → q.size_pending + length events ≤ limit
    → accepted limit (post available takes events n) q ≡ events
unfolding accepted is_kept
accepted-all limit available takes events n q room =
    ground (arith, take_min (num_to_write available takes events q.pending) events)

module _ {W : Type 0} (p : Platform) (S : SubHals W) (info : ℕ → SensorInfo) where
  pub acquire-IsReturned :
      (now : ℕ) (s : System W)
      → s.proxy.wakelock.ref_count + 1 < 2 ^ 64
      → IsReturned p info s
      → IsReturned p info (acquire now s)
  unfolding acquire increment_ref_count_and_maybe_acquire_wakelock
  acquire-IsReturned now s room h = ground (arith, h.returned, h.running)

  pub release-IsReturned :
      (taken holders : ℕ) (s : System W)
      → s.holders ≡ suc holders
      → s.proxy.wakelock.timeout_reset_time ≤ taken
      → IsBalanced p info 0 s
      → IsReturned p info s
      → IsReturned p info (release taken holders s)
  unfolding release decrement_ref_count_and_maybe_release_wakelock
  release-IsReturned taken holders s e fresh balanced h =
      ground (arith, h.returned, h.running, balanced.covered, balanced.reported)

  pub read_processed-IsReturned :
      (n : ℕ) (s : System W)
      → s.processed + n ≤ given p info s.proxy.queue
      → IsReturned p info s
      → IsReturned p info (read_processed n s)
  unfolding read_processed handle_wakelocks_end decrement_ref_count_and_maybe_release_wakelock
  read_processed-IsReturned n s few h = ground (arith, h.returned, h.running)

  pub begin-IsReturned :
      (now after : ℕ) (s : System W)
      → now ≤ s.proxy.wakelock.timeout_start_time + p.wakelock_timeout_ns
      → IsReturned p info s
      → IsReturned p info (
          with_wakelock
            (handle_wakelocks_begin p.wakelock_timeout_ns now after s.proxy.wakelock).0
            s)
  unfolding handle_wakelocks_begin
  begin-IsReturned now after s early h = ground (arith, h.returned, h.running)

  pub write-IsReturned :
      (quantum : ℕ) (s : System W)
      → HasFront s.proxy.queue
      → IsReturned p info s
      → IsReturned p info (record s { proxy = step_pending_writes p quantum true s.proxy })
  unfolding step_pending_writes give
  write-IsReturned quantum s front h =
      let none_given =
        returned-none p S info 0 s.proxy.queue.writer s.proxy.queue.pending s.proxy.sensors in
      let sum =
        next_write_sum p info s.proxy.wakelock.threads_run quantum true s.proxy.queue front in
      rw (none_given) (record { returned = omega (arith, sum.0, h.returned); running = h.running })

  -- The queue and the wake lock after a post whose events all find room.
  posted-IsReturned :
      (now : ℕ) (locked : Bool) (available : ℕ) (takes : Bool) (events : List Event) (n : ℕ)
      (s : System W)
      → (locked ≡ false → n ≡ 0)
      → n ≡ wakeups p info events
      → s.proxy.wakelock.ref_count + n < 2 ^ 64
      → s.proxy.queue.size_pending + length events ≤ p.max_size_pending_write_events_queue
      → HasFront s.proxy.queue
      → IsReturned p info s
      → IsReturned p info
          (record s { proxy = post_events p now locked available takes events n s.proxy })
  unfolding post_events increment_ref_count_and_maybe_acquire_wakelock step
  posted-IsReturned now locked available takes events n s free same counter room front h =
      let limit = p.max_size_pending_write_events_queue in
      let sum = step_sum p info limit (post available takes events n) s.proxy.queue front in
      let all = accepted-all limit available takes events n s.proxy.queue room in
      let exact = rw all at sum in
      let count =
        counted_post p S info 0 now locked available takes n events s.proxy free h.running
          counter in
      record {
        returned = omega (arith, exact, count, same, h.returned);
        running = ground (arith, h.running);
      }

  pub post-IsReturned :
      (sub_hal now available : ℕ) (locked takes : Bool) (events : List Event) (s : System W)
      → Asserts p info sub_hal locked events s.proxy
      → s.proxy.wakelock.ref_count + length events < 2 ^ 64
      → s.proxy.queue.size_pending + length events ≤ p.max_size_pending_write_events_queue
      → HasFront s.proxy.queue
      → IsReturned p info s
      → IsReturned p info (record s {
        proxy = post_from_sub_hal p info sub_hal now locked available takes events s.proxy;
      })
  unfolding post_from_sub_hal
  post-IsReturned sub_hal now available locked takes events s asserts counter room front h =
      elim (Option-cases posting) [
        | inl e ↦ rw (e, post_from_sub_hal) h
        | inr (posted, e) ↦
            let is = callback_post_events-IsPosted p info sub_hal _ locked events posted e in
            let few = count_wakeups-length p info sub_hal events in
            let shorter = survivors-length p info sub_hal events in
            let n = posted.num_wakeup_events in
            let fits : length posted.events ≤ length events = rw (is.handed) shorter in
            rw (e, post_from_sub_hal)
              (posted-IsReturned now locked available takes posted.events n s
                (λ l. ground (arith, asserts posted e, is.asserted, l))
                (is.counted ∙ count_wakeups-wakeups p info sub_hal posted.events)
                (ground (arith, is.counted, is.handed)) (omega (arith, fits, room)) front h)
      ]
    where
      posting : Option (Posted p info sub_hal)
      posting = callback_post_events p info sub_hal s.proxy.wakelock.threads_run events locked
