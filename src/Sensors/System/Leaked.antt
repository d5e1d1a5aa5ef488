-- ===== src/Sensors/System/Leaked.antt =====
-- A post whose rest finds no room, and what follows.
use device_xiaomi_camellia.Base.{
  ℕ, ◌+◌, ◌-◌, ◌<◌, ◌^◌, ◌≡◌, sym, ap, ◌∙◌, Bool, true, false, some, List, arith, length, take,
  drop, take-append-drop, length-drop,
}
use device_xiaomi_camellia.Sensors.Platform.{Platform, SensorInfo, Event}
use device_xiaomi_camellia.Sensors.EventQueue.{EventQueue, num_to_write, is_kept, post, step}
use device_xiaomi_camellia.Sensors.EventQueue.Order.{HasFront, accepted}
use device_xiaomi_camellia.Sensors.Callback.{Posted, post_events as callback_post_events}
use device_xiaomi_camellia.Sensors.Callback.Laws.{count_wakeups-length}
use device_xiaomi_camellia.Sensors.Proxy.{SubHals, post_events}
use device_xiaomi_camellia.Sensors.System.{
  System, IsInitial, Asserts, wakeups, post_from_sub_hal, posts, Reach, start, later,
}
use device_xiaomi_camellia.Sensors.System.Preserved.{callback_post_events-IsPosted}
use device_xiaomi_camellia.Sensors.System.Consistent.{Reach-IsConsistent}
use device_xiaomi_camellia.Sensors.System.Sums.{
  wakeups-append, count_wakeups-wakeups, step_sum, step-given,
}
use device_xiaomi_camellia.Sensors.System.Balance.{
  IsBalanced, Step-IsBalanced, Reach-IsBalanced, counted_post,
}

-- A post that finds no room for its rest gets its first events through, and no others.
accepted-first :
    (limit available : ℕ) (takes : Bool) (events : List Event) (n : ℕ) (q : EventQueue)
    → let written = num_to_write available takes events q.pending in
      limit < q.size_pending + (length events - written)
      → accepted limit (post available takes events n) q ≡ take written events
unfolding accepted is_kept
accepted-first limit available takes events n q full = ground arith

module _ {W : Type 0} (p : Platform) (S : SubHals W) (info : ℕ → SensorInfo) where
  wakeups-take-drop :
      (n : ℕ) (es : List Event)
      → wakeups p info (take n es) + wakeups p info (drop n es) ≡ wakeups p info es
  wakeups-take-drop n es =
      sym (wakeups-append p info (take n es) (drop n es))
      ∙ ap (wakeups p info) (take-append-drop n es)

  Reach-append :
      {faults : Bool} {first s t : System W}
      → Reach p S info faults first s
      → Reach p S info faults s t
      → Reach p S info faults first t
  Reach-append r start = r
  Reach-append r (later r' step) = later (Reach-append r r') step

  -- References that are lost stay lost.
  Reach-lost :
      {first s t : System W} (lost : ℕ) (r : Reach p S info false first s)
      → IsInitial first
      → IsBalanced p info lost s
      → Reach p S info false s t
      → IsBalanced p info lost t
  Reach-lost lost r h balanced start = balanced
  Reach-lost lost r h balanced (later r' step) =
      Step-IsBalanced p S info lost step (Reach-IsConsistent p S info (Reach-append r r') h).fronted
        (Reach-lost lost r h balanced r')

  -- The queue and the wake lock after a post that loses its rest.
  lost_post-IsBalanced :
      (now : ℕ) (locked : Bool) (available : ℕ) (takes : Bool) (events : List Event) (n : ℕ)
      (s : System W)
      → (locked ≡ false → n ≡ 0)
      → n ≡ wakeups p info events
      → s.proxy.wakelock.threads_run ≡ true
      → s.proxy.wakelock.ref_count + n < 2 ^ 64
      → HasFront s.proxy.queue
      → let written = num_to_write available takes events s.proxy.queue.pending in
        p.max_size_pending_write_events_queue
          < s.proxy.queue.size_pending + (length events - written)
        → IsBalanced p info 0 s
        → IsBalanced p info
            (wakeups p info (drop written events))
            (record s { proxy = post_events p now locked available takes events n s.proxy })
  unfolding post_events step
  lost_post-IsBalanced now locked available takes events n s free same runs counter front full h =
      let limit = p.max_size_pending_write_events_queue in
      let c = post available takes events n in
      let written = num_to_write available takes events s.proxy.queue.pending in
      let first = accepted-first limit available takes events n s.proxy.queue full in
      let sum = rw first at (step_sum p info limit c s.proxy.queue front) in
      let count =
        counted_post p S info 0 now locked available takes n events s.proxy free runs counter in
      record {
        covered = omega (arith, sum, count, same, h.covered, wakeups-take-drop written events);
        reported = omega (arith, h.reported, step-given p info limit c s.proxy.queue);
      }

  module _ (sub_hal now available : ℕ) (locked takes : Bool) (events : List Event) where
    -- The events that are dropped, once the callback has filtered the post.
    abbrev pub dropped : System W → Posted p info sub_hal → List Event
    dropped s posted =
        drop (num_to_write available takes posted.events s.proxy.queue.pending) posted.events

    -- The rest of a post finds no room behind the pending events.
    abbrev pub Overflows : System W → Posted p info sub_hal → Type 0
    Overflows s posted =
        p.max_size_pending_write_events_queue
        < s.proxy.queue.size_pending + length (dropped s posted)

    overflow-IsBalanced :
        (posted : Posted p info sub_hal) (s : System W)
        → callback_post_events p info sub_hal s.proxy.wakelock.threads_run events locked
          ≡ some posted
        → posted.assertion_holds ≡ true
        → s.proxy.wakelock.ref_count + length events < 2 ^ 64
        → Overflows s posted
        → HasFront s.proxy.queue
        → IsBalanced p info 0 s
        → IsBalanced p info (wakeups p info (dropped s posted)) (record s {
          proxy = post_from_sub_hal p info sub_hal now locked available takes events s.proxy;
        })
    unfolding post_from_sub_hal
    overflow-IsBalanced posted s e holds counter full front h =
        let is = callback_post_events-IsPosted p info sub_hal _ locked events posted e in
        let few = count_wakeups-length p info sub_hal events in
        let n = posted.num_wakeup_events in
        let written = num_to_write available takes posted.events s.proxy.queue.pending in
        rw (e, post_from_sub_hal)
          (lost_post-IsBalanced now locked available takes posted.events n s
            (λ l. ground (arith, holds, is.asserted, l))
            (is.counted ∙ count_wakeups-wakeups p info sub_hal posted.events) is.running
            (ground (arith, is.counted, is.handed)) front
            (omega (arith, full, length-drop written posted.events)) h)

    -- From a proxy as it is constructed, in any state that it reaches without faults: if a post
    -- passes the callback's assertion and its rest, with a wake-up event in it, finds no room in the
    -- pending queue, then the kernel's wake lock is held from then on, whatever follows, even when
    -- all events that the framework ever got are reported as processed and all scoped wake locks are
    -- given back, as long as it does not time out and the proxy is not initialized again.
    pub held_after_overflow :
        {first s t : System W} (r : Reach p S info false first s)
        → IsInitial first
        → (posted : Posted p info sub_hal)
        → callback_post_events p info sub_hal s.proxy.wakelock.threads_run events locked
          ≡ some posted
        → posted.assertion_holds ≡ true
        → s.proxy.wakelock.ref_count + length events < 2 ^ 64
        → Overflows s posted
        → 0 < wakeups p info (dropped s posted)
        → Reach p S info false
            (record s {
              proxy = post_from_sub_hal p info sub_hal now locked available takes events s.proxy;
            })
            t
        → t.proxy.wakelock.held ≡ true
    unfolding post_from_sub_hal
    held_after_overflow {s = s} {t = t} r h posted e holds counter full waking r' =
        let asserts : Asserts p info sub_hal locked events s.proxy = λ other e'. cc in
        let r1 = later r (posts sub_hal now available locked takes events asserts counter) in
        let balanced =
          Reach-lost (wakeups p info (dropped s posted)) r1 h
            (overflow-IsBalanced posted s e holds counter full
              (Reach-IsConsistent p S info r h).fronted (Reach-IsBalanced p S info r h))
            r' in
        ground (
          arith,
          (Reach-IsConsistent p S info (Reach-append r1 r') h).agrees,
          balanced.covered,
          balanced.reported,
          waking,
        )
