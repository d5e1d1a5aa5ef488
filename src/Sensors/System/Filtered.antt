-- ===== src/Sensors/System/Filtered.antt =====
-- Which events may reach the framework.
use device_xiaomi_camellia.Base.{
  ℕ, subst, zero, suc, ◌≡◌, inl, inr, Bool, false, Option, List, [], ◌∷◌, ◌++◌, arith, All,
  All-append, Bool-cases, Option-cases, take, sym, append-nil,
}
use device_xiaomi_camellia.Sensors.Platform.{Platform, SensorInfo, Event}
use device_xiaomi_camellia.Sensors.EventQueue.{
  EventQueue, Call, post, advance, step, post_events_to_message_queue, num_to_write, is_kept,
}
use device_xiaomi_camellia.Sensors.EventQueue.Order.{
  HasFront, step-order, offered, undelivered, accepted,
}
use device_xiaomi_camellia.Sensors.Callback.{
  Posted, is_skipped, post_events as callback_post_events,
}
use device_xiaomi_camellia.Sensors.Callback.Laws.{survivors}
use device_xiaomi_camellia.Sensors.Proxy.{SubHals, HalProxy, post_events}
use device_xiaomi_camellia.Sensors.Initialize.{Handover, initialize_common}
use device_xiaomi_camellia.Sensors.Proxy.Modes.{set_operation_mode_keeps}
use device_xiaomi_camellia.Sensors.System.{
  connect, disconnect, switch_operation_mode, connects, disconnects, switches, calls, IsInitial,
  System, step_pending_writes, post_from_sub_hal, initialize_again, acquire, release,
  read_processed, Step, acquires, releases, posts, writes, begins, reads, initializes, Reach, start,
  later,
}
use device_xiaomi_camellia.Sensors.System.Preserved.{
  next_write-cases, callback_post_events-IsPosted,
}
use device_xiaomi_camellia.Sensors.System.Consistent.{Reach-IsConsistent}

All-take : (P : Event → Type 0) (n : ℕ) (es : List Event) → All P es → All P (take n es)
All-take P zero es h = tt
All-take P (suc n) [] h = tt
All-take P (suc n) (e ∷ es) h = (h.0, All-take P n es h.1)

All-front : (P : Event → Type 0) (es fs : List Event) → All P (es ++ fs) → All P es
All-front P [] fs h = tt
All-front P (e ∷ es) fs h = (h.0, All-front P es fs h.1)

module _ (p : Platform) (info : ℕ → SensorInfo) where
  -- An event that is no pick-up gesture, or one with the value 1.
  abbrev pub Counts : Event → Type 0
  Counts event = is_skipped p info 0 event ≡ false

  -- All events that were offered to the framework or are on their way to it.
  pub AllCount : EventQueue → Type 0
  AllCount q = All Counts (offered q ++ undelivered q)

  survivors-Counts :
      (sub_hal : ℕ) (events : List Event) → All Counts (survivors p info sub_hal events)
  unfolding survivors
  survivors-Counts sub_hal [] = tt
  survivors-Counts sub_hal (event ∷ events) = ground (arith, survivors-Counts sub_hal events)

  step-AllCount :
      (limit : ℕ) (c : Call) (q : EventQueue)
      → HasFront q
      → All Counts (accepted limit c q)
      → AllCount q
      → AllCount (step limit c q)
  unfolding AllCount
  step-AllCount limit c q front more h =
      rw (step-order limit c q front)
        (All-append Counts (offered q ++ undelivered q) (accepted limit c q) h more)

  post_events-AllCount :
      (now : ℕ) (locked : Bool) (available : ℕ) (takes : Bool) (events : List Event) (n : ℕ)
      (proxy : HalProxy)
      → HasFront proxy.queue
      → All Counts events
      → AllCount proxy.queue
      → AllCount (post_events p now locked available takes events n proxy).queue
  unfolding post_events post_events_to_message_queue step accepted
  post_events-AllCount now locked available takes events n proxy front counts h =
      let limit = p.max_size_pending_write_events_queue in
      let some_counts =
        All-take Counts (num_to_write available takes events proxy.queue.pending) events counts in
      step-AllCount limit (post available takes events n) proxy.queue front
        (elim (Bool-cases (
          is_kept limit (num_to_write available takes events proxy.queue.pending) events
            proxy.queue)) [ inl kept ↦ rw (kept) counts | inr lost ↦ rw (lost) some_counts ])
        h

  post_from_sub_hal-AllCount :
      (sub_hal now : ℕ) (locked : Bool) (available : ℕ) (takes : Bool) (events : List Event)
      (proxy : HalProxy)
      → HasFront proxy.queue
      → AllCount proxy.queue
      → AllCount (post_from_sub_hal p info sub_hal now locked available takes events proxy).queue
  unfolding post_from_sub_hal
  post_from_sub_hal-AllCount sub_hal now locked available takes events proxy front h =
      elim (Option-cases posting) [
        | inl e ↦ rw (e, post_from_sub_hal) h
        | inr (posted, e) ↦
            let is = callback_post_events-IsPosted p info sub_hal _ locked events posted e in
            rw (e, post_from_sub_hal)
              (post_events-AllCount now locked available takes posted.events
                posted.num_wakeup_events proxy front
                (subst (All Counts) (sym is.handed) (survivors-Counts sub_hal events)) h)
      ]
    where
      posting : Option (Posted p info sub_hal)
      posting = callback_post_events p info sub_hal proxy.wakelock.threads_run events locked

  write-AllCount :
      (quantum : ℕ) (takes : Bool) (proxy : HalProxy)
      → HasFront proxy.queue
      → AllCount proxy.queue
      → AllCount (step_pending_writes p quantum takes proxy).queue
  unfolding step_pending_writes accepted
  write-AllCount quantum takes proxy front h =
      elim (next_write-cases p proxy.wakelock.threads_run quantum takes proxy.queue) [
        | inl e ↦ rw (e) h
        | inr e ↦ rw (e) (
            step-AllCount p.max_size_pending_write_events_queue (advance quantum takes) proxy.queue
              front tt h)
      ]

module _ {W : Type 0} (p : Platform) (S : SubHals W) (info : ℕ → SensorInfo) where
  acquire-queue : (now : ℕ) (s : System W) → (acquire now s).proxy.queue ≡ s.proxy.queue
  unfolding acquire
  acquire-queue now s = ground arith

  initialize_again-AllCount :
      (ended now : ℕ) (h : Handover) (s : System W)
      → AllCount p info s.proxy.queue
      → AllCount p info (initialize_again p S ended now h s).proxy.queue
  unfolding initialize_again initialize_common undelivered AllCount
  initialize_again-AllCount ended now h s c =
      rw (append-nil (offered s.proxy.queue))
        (All-front (Counts p info) (offered s.proxy.queue) (undelivered s.proxy.queue) c)

  Step-AllCount :
      {faults : Bool} {s t : System W}
      → Step p S info faults s t
      → HasFront s.proxy.queue
      → AllCount p info s.proxy.queue
      → AllCount p info t.proxy.queue
  unfolding connect disconnect switch_operation_mode release read_processed
  Step-AllCount {s = s} (acquires now room) front h = rw (acquire-queue now s) h
  Step-AllCount (releases taken holders e) front h = h
  Step-AllCount {s = s} (posts sub_hal now available locked takes events asserts room) front h =
      post_from_sub_hal-AllCount p info sub_hal now locked available takes events s.proxy front h
  Step-AllCount {s = s} (writes quantum takes f) front h =
      write-AllCount p info quantum takes s.proxy front h
  Step-AllCount (begins now after f) front h = h
  Step-AllCount (reads n f) front h = h
  Step-AllCount (connects sub_hal added) front h = h
  Step-AllCount (disconnects sub_hal removed) front h = h
  Step-AllCount {s = s} (switches mode) front h =
      rw ((set_operation_mode_keeps S mode s.proxy s.world).1) h
  Step-AllCount (calls world) front h = h
  Step-AllCount {s = s} (initializes ended now h' f) front h =
      initialize_again-AllCount ended now h' s h

  IsInitial-AllCount : (s : System W) → IsInitial s → AllCount p info s.proxy.queue
  unfolding AllCount undelivered
  IsInitial-AllCount s h = rw (h.nothing_posted) tt

  -- From a proxy as it is constructed, whatever the sub-HALs post within the callback's assertion
  -- and the room of the counter of references, and however the threads run, with or without
  -- faults, no pick-up gesture with a value other than 1 is ever offered to the framework or on
  -- its way to it.
  pub Reach-AllCount :
      {faults : Bool} {first s : System W}
      → Reach p S info faults first s
      → IsInitial first
      → AllCount p info s.proxy.queue
  Reach-AllCount {first = first} start h = IsInitial-AllCount first h
  Reach-AllCount (later r step) h =
      Step-AllCount step (Reach-IsConsistent p S info r h).fronted (Reach-AllCount r h)
