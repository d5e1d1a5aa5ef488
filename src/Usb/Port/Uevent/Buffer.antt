-- ===== src/Usb/Port/Uevent/Buffer.antt =====
-- The buffer of `uevent_event`, usb/Usb.cpp: its bytes, and the loop that goes from line to line.
-- A pointer is the rest of the buffer that it points to. `none` is an access behind the buffer, or
-- fuel that ran out; the bytes of the buffer are enough fuel.
use device_xiaomi_camellia.Base.{
  ℕ, zero, suc, ◌+◌, Bool, ◌||◌, Option, none, some, List, [], ◌∷◌, map, length, String, leb, ◌==◌,
  if◌then◌else◌,
}
use device_xiaomi_camellia.Usb.Port.Switch.{Partner, File}
use device_xiaomi_camellia.Usb.Port.Uevent.{uevent_event}

abbrev pub uevent_msg_len : ℕ
uevent_msg_len = 2048

infixl 5 ◌>>=◌
abbrev pub ◌>>=◌ {ℓ κ} : {A : Type ℓ} {B : Type κ} → Option A → (A → Option B) → Option B
none >>= f = none
some a >>= f = f a

abbrev pub lines_of : (List ℕ → String) → Option (List (List ℕ)) → Option (List String)
lines_of text_of none = none
lines_of text_of (some lines) = some (map text_of lines)

unfoldable pub put : ℕ → ℕ → List ℕ → Option (List ℕ)
put i c [] = none
put zero c (x ∷ xs) = some (c ∷ xs)
put (suc i) c (x ∷ xs) = do xs' ← put i c xs; some (x ∷ xs')

-- The text at a pointer, and the pointer to the byte behind its zero.
unfoldable pub string_at : List ℕ → Option (List ℕ × List ℕ)
string_at [] = none
string_at (zero ∷ cp) = some ([], cp)
string_at (suc c ∷ cp) = do (line, rest) ← string_at cp; some (suc c ∷ line, rest)

-- The loop, up to an empty text.
unfoldable pub lines_at : ℕ → List ℕ → Option (List (List ℕ))
unfolding string_at
lines_at zero cp = none
lines_at (suc fuel) cp = elim (string_at cp) [
  | none ↦ none
  | some ([], rest) ↦ some []
  | some (c ∷ line, rest) ↦ lines_at fuel rest >>= λ lines. some ((c ∷ line) ∷ lines)
]

-- `none` inside where the event is discarded; `n` is `none` for a negative number.
unfoldable pub receive : Option ℕ → List ℕ → Option (Option (List (List ℕ)))
unfolding put lines_at
receive none msg = some none
receive (some n) msg = if n == 0 || leb uevent_msg_len n then some none else do
  msg' ← put n 0 msg
  msg'' ← put (n + 1) 0 msg'
  lines ← lines_at (length msg'') msg''
  some (some lines)

-- `uevent_event` on what the buffer holds after the call to receive. `text_of` is the text of the
-- bytes of a line.
unfoldable pub uevent_event_received :
    (List ℕ → String)
    → (String → Bool)
    → File
    → List String
    → Bool
    → Option ℕ
    → List ℕ
    → Partner
    → Option (Bool × Partner)
unfolding receive uevent_event
uevent_event_received text_of has_partner drp ports switching n msg s = do
  event ← receive n msg
  some (uevent_event has_partner drp ports switching (lines_of text_of event) s)
