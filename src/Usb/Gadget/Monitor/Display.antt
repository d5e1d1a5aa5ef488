-- ===== src/Usb/Gadget/Monitor/Display.antt =====
-- `displayInotifyEvent`, usb/UsbGadget.cpp: the lines that it logs, in order, for each file event of
-- `monitorFfs` if `DEBUG` is set, which it is not in this source. The bits of a mask are
-- the platform's.
use device_xiaomi_camellia.Base.{ℕ, List, [], ◌∷◌, ◌++◌, String, bit_and, ltb, ◌==◌, if◌then◌else◌}

pub record InotifyBits : Type 0 where
  pub in_access : ℕ
  pub in_attrib : ℕ
  pub in_close_nowrite : ℕ
  pub in_close_write : ℕ
  pub in_create : ℕ
  pub in_delete : ℕ
  pub in_delete_self : ℕ
  pub in_ignored : ℕ
  pub in_isdir : ℕ
  pub in_modify : ℕ
  pub in_move_self : ℕ
  pub in_moved_from : ℕ
  pub in_moved_to : ℕ
  pub in_open : ℕ
  pub in_q_overflow : ℕ
  pub in_unmount : ℕ

pub record InotifyEvent : Type 0 where
  pub wd : ℕ
  pub mask : ℕ
  pub cookie : ℕ
  pub len : ℕ
  pub name : String

pub data LogLine : Type 0 where
  wd_line cookie_line : ℕ → LogLine
  text name_line : String → LogLine

-- The tests of the mask.
unfoldable pub flags : InotifyBits → List (ℕ × String)
flags b =
    (b.in_access, "IN_ACCESS ")
    ∷ (b.in_attrib, "IN_ATTRIB ")
    ∷ (b.in_close_nowrite, "IN_CLOSE_NOWRITE ")
    ∷ (b.in_close_write, "IN_CLOSE_WRITE ")
    ∷ (b.in_create, "IN_CREATE ")
    ∷ (b.in_delete, "IN_DELETE ")
    ∷ (b.in_delete_self, "IN_DELETE_SELF ")
    ∷ (b.in_ignored, "IN_IGNORED ")
    ∷ (b.in_isdir, "IN_ISDIR ")
    ∷ (b.in_modify, "IN_MODIFY ")
    ∷ (b.in_move_self, "IN_MOVE_SELF ")
    ∷ (b.in_moved_from, "IN_MOVED_FROM ")
    ∷ (b.in_moved_to, "IN_MOVED_TO ")
    ∷ (b.in_open, "IN_OPEN ")
    ∷ (b.in_q_overflow, "IN_Q_OVERFLOW ")
    ∷ (b.in_unmount, "IN_UNMOUNT ")
    ∷ []

unfoldable pub flag_lines : ℕ → List (ℕ × String) → List LogLine
flag_lines mask [] = []
flag_lines mask ((bit, shown) ∷ rest) =
    let lines = flag_lines mask rest in if bit_and mask bit == 0 then lines else text shown ∷ lines

unfoldable pub display_inotify_event : InotifyBits → InotifyEvent → List LogLine
unfolding flags flag_lines
display_inotify_event b i =
    (wd_line i.wd ∷ (if ltb 0 i.cookie then cookie_line i.cookie ∷ [] else []))
    ++ (text "mask = " ∷ flag_lines i.mask (flags b))
    ++ (text "\n" ∷ (if ltb 0 i.len then name_line i.name ∷ [] else []))
