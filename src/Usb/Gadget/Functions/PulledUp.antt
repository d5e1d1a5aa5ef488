-- ===== src/Usb/Gadget/Functions/PulledUp.antt =====
-- A request that waits for the monitor thread, with that thread.
use device_xiaomi_camellia.Base.{
  ℕ, sym, append-nil, ◌∙◌, ◌+◌, ◌≡◌, refl, Bool, true, false, ◌&&◌, ◌||◌, List, [], ◌∷◌, ◌++◌,
  length, length-append, arith, if◌then◌else◌,
}
use device_xiaomi_camellia.Usb.World.{
  World, returns, success, error, M, ◌>>◌, modify, require, attempt, call, create, start_monitor,
  Command, event_fd, epoll, epoll_inotify, epoll_event_fd,
}
use device_xiaomi_camellia.Usb.Gadget.Setup.{
  finish_by_monitor, wait_for_monitor, tell_waited, tell_status,
}
use device_xiaomi_camellia.Usb.Gadget.Functions.Quiet.{tells, tells-append}
use device_xiaomi_camellia.Usb.Gadget.Monitor.{Seen, started, monitor_ffs}
use device_xiaomi_camellia.Usb.Gadget.Monitor.Laws.{comes_up, monitor_ffs_lem}

-- The world after a call.
abbrev logged : Command → Bool → World → World
logged c answer w = record w { trace = w.trace ++ ((c, answer) ∷ []) }

length-logged :
    (c : Command) (answer : Bool) (w : World) (n m : ℕ)
    → length w.trace ≡ n
    → n + 1 ≡ m
    → length (logged c answer w).trace ≡ m
length-logged c answer w n m size e =
    omega (arith, size, e, length-append w.trace ((c, answer) ∷ []))

-- A call that must succeed, and does.
require->> :
    {B : Type 0} (c : Command) (k : M B) (w : World) (n : ℕ)
    → length w.trace ≡ n
    → w.answers n ≡ true
    → (require c >> k) w ≡ k (logged c true w)
unfolding require call
require->> c k w n size answers = rw (size, answers) refl

attempt->> :
    {B : Type 0} (c : Command) (k : M B) (w : World) (n : ℕ)
    → length w.trace ≡ n
    → (attempt c >> k) w ≡ k (logged c (w.answers n) w)
unfolding attempt call
attempt->> c k w n size = rw (size) refl

-- The four descriptors and the thread of the monitor.
abbrev with_monitor : Bool → World → World
with_monitor answer w =
    let w4 = logged (create epoll_event_fd) true (
      logged (create epoll_inotify) true
        (logged (create epoll) true (logged (create event_fd) true w))) in
    let w5 =
      logged start_monitor answer
        (record w4 { gadget = record w4.gadget { gadget_pullup = false } }) in
    record w5 { gadget = record w5.gadget { monitor_created = true } }

finish_by_monitor_waits :
    (functions timeout n : ℕ) (w : World)
    → length w.trace ≡ n
    → w.answers n ≡ true
    → w.answers (n + 1) ≡ true
    → w.answers (n + 2) ≡ true
    → w.answers (n + 3) ≡ true
    → finish_by_monitor functions true timeout w
      ≡ wait_for_monitor functions true timeout (with_monitor (w.answers (n + 4)) w)
unfolding finish_by_monitor
finish_by_monitor_waits functions timeout n w size a b c d =
    let w1 = logged (create event_fd) true w in
    let w2 = logged (create epoll) true w1 in
    let w3 = logged (create epoll_inotify) true w2 in
    let w4 = logged (create epoll_event_fd) true w3 in
    let s1 = length-logged (create event_fd) true w n (n + 1) size refl in
    let s2 = length-logged (create epoll) true w1 (n + 1) (n + 2) s1 (omega arith) in
    let s3 = length-logged (create epoll_inotify) true w2 (n + 2) (n + 3) s2 (omega arith) in
    let s4 = length-logged (create epoll_event_fd) true w3 (n + 3) (n + 4) s3 (omega arith) in
    require->> (create event_fd) _ w n size a
    ∙ require->> (create epoll) _ w1 (n + 1) s1 b
    ∙ require->> (create epoll_inotify) _ w2 (n + 2) s2 c
    ∙ require->> (create epoll_event_fd) _ w3 (n + 3) s3 d
    ∙ attempt->> start_monitor
        (modify (λ g. record g { monitor_created = true })
          >> wait_for_monitor functions true timeout)
        (record w4 { gadget = record w4.gadget { gadget_pullup = false } }) (n + 4) s4

wait_for_monitor-tells :
    (functions timeout n : ℕ) (up : Bool) (w : World)
    → length w.trace ≡ n
    → w.answers n ≡ up
    → w.gadget.gadget_pullup ≡ false
    → let (r, w') = wait_for_monitor functions true timeout w in
      (r ≡ returns tt)
      × (tells w'.trace ≡ tells w.trace ++ (functions, if up then success else error) ∷ [])
      × (w'.gadget.gadget_pullup ≡ up)
unfolding wait_for_monitor tell_waited tell_status attempt call tells
wait_for_monitor-tells functions timeout n true w size waited down =
    rw (size, waited) (refl, grind (arith, tells-append, append-nil), refl)
wait_for_monitor-tells functions timeout n false w size waited down =
    rw (size, waited) (refl, grind (arith, tells-append, append-nil), down)

tells-with_monitor :
    (answer : Bool) (w : World) → tells (with_monitor answer w).trace ≡ tells w.trace
unfolding tells
tells-with_monitor answer w = grind (arith, tells-append, append-nil)

-- A request with a callback that starts the monitor, and whose wait ends with what the monitor has
-- done by then, ends after it told the callback exactly once: of success if all endpoints were found
-- with a pull-up that is written, at the start of the monitor or at an event before the end of the
-- wait, and else of an error. Its descriptors can all be made.
pub finish_by_monitor-monitor_ffs :
    (functions timeout : ℕ) (applied present written : Bool) (events : List Seen) (w : World)
    → w.answers (length w.trace) ≡ true
    → w.answers (length w.trace + 1) ≡ true
    → w.answers (length w.trace + 2) ≡ true
    → w.answers (length w.trace + 3) ≡ true
    → w.answers (length w.trace + 5)
      ≡ (monitor_ffs present written events (started applied)).gadget_pullup
    → let (r, w') = finish_by_monitor functions true timeout w in
      let up = (present && written) || comes_up events in
      (r ≡ returns tt)
      × (tells w'.trace ≡ tells w.trace ++ (functions, if up then success else error) ∷ [])
      × (w'.gadget.gadget_pullup ≡ up)
finish_by_monitor-monitor_ffs functions timeout applied present written events w a b c d waited =
    let n = length w.trace in
    let v = with_monitor (w.answers (n + 4)) w in
    let up = (present && written) || comes_up events in
    let size : length v.trace ≡ n + 5 = grind (arith, length-append) in
    let marked : w.answers (n + 5) ≡ up =
      waited ∙ (monitor_ffs_lem applied present written events).1 in
    let ends = wait_for_monitor-tells functions timeout (n + 5) up v size marked refl in
    rw
      (
        finish_by_monitor_waits functions timeout n w refl a b c d,
        sym (tells-with_monitor (w.answers (n + 4)) w),
      )
      ends
