-- ===== src/Usb/Port/Work/Laws.antt =====
-- When the worker thread ends, and what it leaves open.
use device_xiaomi_camellia.Base.{
  ◌≡◌, refl, Bool, true, false, not, ◌&&◌, ◌||◌, Option, none, some, List, [], ◌∷◌, String,
  if◌then◌else◌, arith,
}
use device_xiaomi_camellia.Usb.Port.Switch.{Partner, File}
use device_xiaomi_camellia.Usb.Port.Work.{
  Descriptor, uevent_fd, epoll_fd, Kernel, Wait, interrupted, failed, ready, work_loop, work,
}

-- What the thread has opened.
abbrev pub opened : Kernel → List Descriptor
opened k =
    if k.opens_socket
    then (if k.creates_epoll then uevent_fd ∷ epoll_fd ∷ [] else uevent_fd ∷ [])
    else []

-- A wait after which the thread goes on no more: it fails, or the thread was told to end by then.
abbrev pub ends : Wait → Bool
ends (interrupted told) = told
ends failed = true
ends (ready told events) = told

unfoldable pub any_ends : List Wait → Bool
any_ends [] = false
any_ends (wait ∷ waits) = ends wait || any_ends waits

abbrev pub is_some {ℓ} : {A : Type ℓ} → Option A → Bool
is_some none = false
is_some (some a) = true

abbrev pub closed : Option (List Descriptor × Partner) → List Descriptor
closed none = []
closed (some (descriptors, s)) = descriptors

module _ (has_partner : String → Bool) (drp : File) (ports : List String) (switching : Bool) where
  work_loop-ends :
      (waits : List Wait) (destroy_thread : Bool) (s : Partner)
      → is_some (work_loop has_partner drp ports switching waits destroy_thread s)
        ≡ (destroy_thread || any_ends waits)
  unfolding work_loop any_ends
  work_loop-ends waits true s = refl
  work_loop-ends [] false s = refl
  work_loop-ends (interrupted told ∷ waits) false s = work_loop-ends waits told s
  work_loop-ends (failed ∷ waits) false s = refl
  work_loop-ends (ready told events ∷ waits) false s = work_loop-ends waits told _

  -- Whether the thread comes to its end.
  abbrev pub is_over : Kernel → List Wait → Bool → Bool
  is_over k waits destroy_thread =
      not (k.opens_socket && k.creates_epoll && k.adds_socket) || (destroy_thread || any_ends waits)

  -- The thread ends exactly if a descriptor cannot be made, if it was told to end before its first
  -- wait, or with the first wait that fails or by whose end it was told to; a signal alone, without
  -- a wait that ends, does not end it. When it ends it has closed exactly what it has opened.
  pub work_lem :
      (k : Kernel) (waits : List Wait) (destroy_thread : Bool) (s : Partner)
      → let result = work has_partner drp ports switching k waits destroy_thread s in
        (is_some result ≡ is_over k waits destroy_thread)
        × (closed result ≡ (if is_over k waits destroy_thread then opened k else []))
  unfolding work
  work_lem k waits destroy_thread s = ground (arith, work_loop-ends waits destroy_thread s)
