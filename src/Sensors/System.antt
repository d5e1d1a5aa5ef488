-- ===== src/Sensors/System.antt =====
-- The threads of the sensors proxy over one state, sensors/HalProxy.cpp and
-- sensors/HalProxyCallback.cpp: posts of the sub-HALs, the pending writes thread with what it gives
-- back, the wake lock thread, dynamic sensors, the operation mode, and initializations. A step is a
-- part that runs under the mutexes; an initialization, which holds no mutex of the queue, is one step
-- here while no post comes in between, and is taken apart in Parts.
pub mod Preserved
pub mod Consistent
pub mod Parts
pub mod Lost
pub mod Sums
pub mod Balance
pub mod Refused
pub mod Filtered
pub mod Returned
pub mod Released
pub mod Leaked
use device_xiaomi_camellia.Base.{
  ℕ, suc, ◌+◌, ◌≤◌, ◌<◌, ◌^◌, ◌≡◌, ◌⊎◌, Bool, true, false, not, ◌&&◌, Option, none, some, List, [],
  ◌∷◌, if◌then◌else◌, length,
}
use device_xiaomi_camellia.Sensors.Platform.{Platform, SensorInfo, Event, OperationMode}
use device_xiaomi_camellia.Sensors.Wakelock.{
  Wakelock, increment_ref_count_and_maybe_acquire_wakelock,
  decrement_ref_count_and_maybe_release_wakelock, handle_wakelocks_begin, handle_wakelocks_end,
}
use device_xiaomi_camellia.Sensors.EventQueue.{
  EventQueue, Writer, idle, writing, wrote, handle_pending_writes, empty,
}
use device_xiaomi_camellia.Sensors.EventQueue.Order.{offered}
use device_xiaomi_camellia.Sensors.EventQueue.Dropped.{Sensors, give_back}
use device_xiaomi_camellia.Sensors.Callback.{Posted, wakes_up, post_events as callback_post_events}
use device_xiaomi_camellia.Sensors.Proxy.{SubHals, HalProxy, post_events, set_operation_mode}
use device_xiaomi_camellia.Sensors.Dynamic.{
  on_dynamic_sensors_connected, on_dynamic_sensors_disconnected,
}
use device_xiaomi_camellia.Sensors.Initialize.{Handover, initialize_common}

-- `holders` counts the scoped wake locks of the sub-HALs, which the platform defines: each took
-- one reference and gives it back in the end. `processed` counts the wake-up events that the
-- framework has reported as processed.
pub record System (W : Type 0) : Type 0 where
  pub proxy : HalProxy
  pub world : W
  pub holders : ℕ
  pub processed : ℕ

-- A proxy as it is constructed.
pub record IsInitial {W : Type 0} (s : System W) : Type 0 where
  pub no_dynamic : s.proxy.dynamic_sensors ≡ []
  pub nothing_posted : s.proxy.queue ≡ empty
  pub nothing_counted : s.proxy.wakelock.ref_count ≡ 0
  pub not_held : s.proxy.wakelock.held ≡ false
  pub no_holders : s.holders ≡ 0
  pub none_processed : s.processed ≡ 0

module _ (p : Platform) where
  -- What a write that is not taken gives back, and the map of sensors after it.
  unfoldable pub returned : Bool → Writer → List (List Event × ℕ) → Sensors → Option ℕ × Sensors
  returned takes (writing size) ((events, n) ∷ ps) sensors =
      let given = give_back p size events n sensors in if takes then (none, sensors) else given
  returned takes _ _ sensors = (none, sensors)

  unfoldable pub give : Option ℕ → Wakelock → Wakelock
  give none w = w
  give (some amount) w = decrement_ref_count_and_maybe_release_wakelock amount none w

  -- A round begins only while the threads run.
  unfoldable pub next_write : Bool → ℕ → Bool → EventQueue → Writer → EventQueue
  next_write runs quantum takes q idle = if runs then handle_pending_writes quantum takes q else q
  next_write runs quantum takes q _ = handle_pending_writes quantum takes q

  -- The next part of `handlePendingWrites`, with its wake lock.
  unfoldable pub step_pending_writes : ℕ → Bool → HalProxy → HalProxy
  step_pending_writes quantum takes proxy =
      let (amount, sensors) = returned takes proxy.queue.writer proxy.queue.pending proxy.sensors in
      record proxy {
        sensors = sensors;
        wakelock = give amount proxy.wakelock;
        queue = next_write proxy.wakelock.threads_run quantum takes proxy.queue proxy.queue.writer;
      }

  -- `postEvents` of the callback, down to the queue.
  unfoldable pub post_from_sub_hal :
      (ℕ → SensorInfo) → ℕ → ℕ → Bool → ℕ → Bool → List Event → HalProxy → HalProxy
  post_from_sub_hal info sub_hal now locked available takes events proxy =
      elim (callback_post_events p info sub_hal proxy.wakelock.threads_run events locked) [
        | none ↦ proxy
        | some posted ↦
            post_events p now locked available takes posted.events posted.num_wakeup_events proxy
      ]

  -- The assertion of the callback, where it is reached.
  abbrev pub Asserts : (ℕ → SensorInfo) → ℕ → Bool → List Event → HalProxy → Type 0
  Asserts info sub_hal locked events proxy =
      (posted : Posted p info sub_hal)
      → callback_post_events p info sub_hal proxy.wakelock.threads_run events locked ≡ some posted
      → posted.assertion_holds ≡ true

  -- The wake-up events of a list.
  unfoldable pub wakeups : (ℕ → SensorInfo) → List Event → ℕ
  wakeups info [] = 0
  wakeups info (event ∷ events) =
      let rest = wakeups info events in if wakes_up p info 0 event then suc rest else rest

module _ {W : Type 0} where
  abbrev pub with_wakelock : Wakelock → System W → System W
  with_wakelock w s = record s { proxy = record s.proxy { wakelock = w } }

  -- A sub-HAL takes a scoped wake lock through the counter that the proxy is for it.
  unfoldable pub acquire : ℕ → System W → System W
  acquire now s =
      let (w, taken) = increment_ref_count_and_maybe_acquire_wakelock now 1 s.proxy.wakelock in
      elim taken [ none ↦ s | some start ↦ record (with_wakelock w s) { holders = suc s.holders } ]

  -- It gives the lock back, with the time at which it was taken.
  unfoldable pub release : ℕ → ℕ → System W → System W
  release start holders s =
      record (with_wakelock
        (decrement_ref_count_and_maybe_release_wakelock 1 (some start) s.proxy.wakelock) s) {
          holders = holders;
        }

  -- The wake lock thread has read how many wake-up events were processed.
  unfoldable pub read_processed : ℕ → System W → System W
  read_processed n s = record (with_wakelock (handle_wakelocks_end (some n) s.proxy.wakelock) s) {
    processed = s.processed + n;
  }

module _ {W : Type 0} (p : Platform) (S : SubHals W) where
  unfoldable pub initialize_again : ℕ → ℕ → Handover → System W → System W
  initialize_again ended now h s =
      let (result, proxy, world) = initialize_common p S ended now h s.proxy s.world in
      record s { proxy = proxy; world = world }

module _ {W : Type 0} (p : Platform) where
  -- Dynamic sensors come, or go.
  unfoldable pub connect : ℕ → List SensorInfo → System W → System W
  connect sub_hal added s = record s {
    proxy = record s.proxy {
      dynamic_sensors =
          (on_dynamic_sensors_connected p.sub_hal_index_mask sub_hal added
            s.proxy.dynamic_sensors).0;
    };
  }

  unfoldable pub disconnect : ℕ → List ℕ → System W → System W
  disconnect sub_hal removed s = record s {
    proxy = record s.proxy {
      dynamic_sensors =
          (on_dynamic_sensors_disconnected p.sub_hal_index_mask sub_hal removed
            s.proxy.dynamic_sensors).0;
    };
  }

module _ {W : Type 0} (S : SubHals W) where
  unfoldable pub switch_operation_mode : OperationMode → System W → System W
  switch_operation_mode mode s =
      let (result, proxy, world) = set_operation_mode S mode s.proxy s.world in
      record s { proxy = proxy; world = world }

module _ {W : Type 0} (p : Platform) (S : SubHals W) (info : ℕ → SensorInfo) where
  -- What may happen. With `faults` the message queue may refuse a write, the wake lock may time
  -- out, the framework may report more than it was given, and it may initialize the proxy again.
  -- All other calls of the HAL, such as `activate`, change only the state of the sub-HALs: they are
  -- `calls`.
  pub data Step (faults : Bool) (s : System W) : System W → Type 0 where
    acquires : (now : ℕ) → s.proxy.wakelock.ref_count + 1 < 2 ^ 64 → Step faults s (acquire now s)
    releases :
        (start holders : ℕ) → s.holders ≡ suc holders → Step faults s (release start holders s)
    posts :
        (sub_hal now available : ℕ) (locked takes : Bool) (events : List Event)
        → Asserts p info sub_hal locked events s.proxy
        → s.proxy.wakelock.ref_count + length events < 2 ^ 64
        → Step faults s (record s {
          proxy = post_from_sub_hal p info sub_hal now locked available takes events s.proxy;
        })
    writes :
        (quantum : ℕ) (takes : Bool)
        → (takes ≡ true) ⊎ (faults ≡ true)
        → Step faults s (record s { proxy = step_pending_writes p quantum takes s.proxy })
    begins :
        (now later : ℕ)
        → (now ≤ s.proxy.wakelock.timeout_start_time + p.wakelock_timeout_ns) ⊎ (faults ≡ true)
        → Step faults s (
            with_wakelock
              (handle_wakelocks_begin p.wakelock_timeout_ns now later s.proxy.wakelock).0
              s)
    reads :
        (n : ℕ)
        → (s.processed + n ≤ wakeups p info (offered s.proxy.queue)) ⊎ (faults ≡ true)
        → Step faults s (read_processed n s)
    connects : (sub_hal : ℕ) (added : List SensorInfo) → Step faults s (connect p sub_hal added s)
    disconnects : (sub_hal : ℕ) (removed : List ℕ) → Step faults s (disconnect p sub_hal removed s)
    switches : (mode : OperationMode) → Step faults s (switch_operation_mode S mode s)
    calls : (world : W) → Step faults s (record s { world = world })
    initializes :
        (ended now : ℕ) (h : Handover)
        → faults ≡ true
        → Step faults s (initialize_again p S ended now h s)

  -- The states that come from the first one.
  pub data Reach (faults : Bool) (first : System W) : System W → Type 0 where
    start : Reach faults first first
    later : {s t : System W} → Reach faults first s → Step faults s t → Reach faults first t
