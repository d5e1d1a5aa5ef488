-- ===== src/Usb/World.antt =====
-- The system that usb/UsbGadget.cpp drives. The calls that can fail are answered by an arbitrary
-- function of their number, so whatever the kernel does is covered; `trace` lists the calls that
-- were made, in order, each with its answer. System properties are a map from names to values.
use device_xiaomi_camellia.Base.{
  ℕ, ◌≡◌, refl, Bool, Option, List, [], ◌∷◌, ◌++◌, length, String, str_eq, if◌then◌else◌, ◌⊎◌, inl,
  inr,
}

-- `V1_0::Status` of the gadget HAL.
pub data Status : Type 0 where
  success error functions_applied functions_not_applied configuration_not_supported : Status

pub data Resource : Type 0 where
  inotify event_fd epoll epoll_inotify epoll_event_fd : Resource

pub data Command : Type 0 where
  write : String → String → Command  -- WriteStringToFile(content, path)
  remove : String → Command
  mkdir : String → Command
  symlink : String → ℕ → Command  -- the target, and the number behind FUNCTION_PATH
  watch : String → Command  -- inotify_add_watch
  create : Resource → Command
  signal_monitor : Command
  start_monitor : Command
  wait_pullup : ℕ → Command  -- mCv.wait_for: the answer is `gadgetPullup` at its end
  tell : ℕ → Status → Command  -- setCurrentUsbFunctionsCb

-- The members of `UsbGadget` that its calls read and write, with `gadgetPullup`.
pub record UsbGadget : Type 0 where
  pub monitor_created : Bool
  pub endpoint_list : List String
  pub current_usb_functions : ℕ
  pub current_usb_functions_applied : Bool
  pub gadget_pullup : Bool

-- `config_entries` is what the configuration directory lists, if it can be opened.
pub record World : Type 0 where
  pub gadget : UsbGadget
  pub config_entries : Option (List String)
  pub answers : ℕ → Bool
  pub trace : List (Command × Bool)
  pub properties : String → String

unfoldable pub call : Command → World → Bool × World
call c w =
    let answer = w.answers (length w.trace) in
    (answer, record w { trace = w.trace ++ ((c, answer) ∷ []) })

-- `GetProperty(name, "")` and `SetProperty`.
abbrev pub get_property : String → World → String
get_property name w = w.properties name

unfoldable pub set_property : String → String → World → World
set_property name value w = record w {
  properties = λ other. if str_eq other name then value else w.properties other;
}

-- A step that may end the calling function with a status.
pub data Outcome {ℓ} (A : Type ℓ) : Type ℓ where
  returns : A → Outcome A
  fails : Status → Outcome A

abbrev pub M : Type 0 → Type 0
M A = World → Outcome A × World

abbrev continue : {A B : Type 0} → (A → M B) → Outcome A × World → Outcome B × World
continue f (returns a, w) = f a w
continue f (fails s, w) = (fails s, w)

infixl 5 ◌>>=◌ ◌>>◌
abbrev pub ◌>>=◌ : {A B : Type 0} → M A → (A → M B) → M B
◌>>=◌ m f w = continue f (m w)

abbrev pub ◌>>◌ : {B : Type 0} → M (Unit {0}) → M B → M B
m >> k = m >>= λ _. k

abbrev pub give : {A : Type 0} → A → M A
give a w = (returns a, w)

-- `if (!call) return Status::ERROR;`
unfoldable pub require : Command → M (Unit {0})
unfolding call
require c w = let (answer, w') = call c w in (if answer then returns tt else fails error, w')

-- A change of the members.
abbrev pub modify : (UsbGadget → UsbGadget) → M (Unit {0})
modify f w = (returns tt, record w { gadget = f w.gadget })

-- A call whose answer is only logged.
unfoldable pub attempt : Command → M (Unit {0})
unfolding call
attempt c w = (returns tt, (call c w).1)

continue-returns :
    {A B : Type 0} (r : Outcome A × World) (f : A → M B) (b : B)
    → (continue f r).0 ≡ returns b
    → (a : A) × (w : World) × (r ≡ (returns a, w)) × (continue f r ≡ f a w)
continue-returns (returns a, w) f b h = (a, w, refl, refl)
continue-returns (fails s, w) f b h = cc

-- A sequence that succeeds went through a first part that succeeded.
pub >>=-returns :
    {A B : Type 0} (m : M A) (f : A → M B) (w : World) (b : B)
    → ((m >>= f) w).0 ≡ returns b
    → (a : A) × (w' : World) × (m w ≡ (returns a, w')) × ((m >>= f) w ≡ f a w')
>>=-returns m f w b h = continue-returns (m w) f b h

continue-cases :
    {A B : Type 0} (r : Outcome A × World) (f : A → M B)
    → ((a : A) × (w : World) × (r ≡ (returns a, w)) × (continue f r ≡ f a w))
      ⊎ ((s : Status) × (w : World) × (r ≡ (fails s, w)) × (continue f r ≡ (fails s, w)))
continue-cases (returns a, w) f = inl (a, w, refl, refl)
continue-cases (fails s, w) f = inr (s, w, refl, refl)

-- A sequence goes on after its first part, or fails as it does.
pub >>=-cases :
    {A B : Type 0} (m : M A) (f : A → M B) (w : World)
    → ((a : A) × (w' : World) × (m w ≡ (returns a, w')) × ((m >>= f) w ≡ f a w'))
      ⊎ ((s : Status) × (w' : World) × (m w ≡ (fails s, w')) × ((m >>= f) w ≡ (fails s, w')))
>>=-cases m f w = continue-cases (m w) f
