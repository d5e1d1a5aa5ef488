-- ===== src/Services.antt =====
-- The three processes: sensors/service.cpp, usb/service.cpp and fingerprint/service.cpp. Whether the
-- service manager registers an object is an argument. A run is the calls of `main` to the platform,
-- in order, and its exit code; in the normal case `join` does not return.
use device_xiaomi_camellia.Base.{
  ℕ, ◌-◌, ◌^◌, ◌≡◌, Bool, true, false, not, ◌&&◌, ◌||◌, List, [], ◌∷◌, if◌then◌else◌, arith,
}

pub data Service : Type 0 where
  sensors usb usb_gadget fingerprint : Service

pub data Action : Type 0 where
  configure_rpc_threadpool : ℕ → Action
  register_as_service : Service → Action
  join_rpc_threadpool : Action

pub record Run : Type 0 where
  pub actions : List Action
  pub exit_code : ℕ

pub joins : List Action → Bool
joins [] = false
joins (join_rpc_threadpool ∷ actions) = true
joins (_ ∷ actions) = joins actions

module _ (registers : Service → Bool) where
  unfoldable pub sensors_main : Run
  sensors_main =
      if registers sensors
      then record {
        actions =
            configure_rpc_threadpool 1 ∷ register_as_service sensors ∷ join_rpc_threadpool ∷ [];
        exit_code = 1;
      }
      else record {
        actions = configure_rpc_threadpool 1 ∷ register_as_service sensors ∷ [];
        exit_code = 2 ^ 32 - 1;
      }

  unfoldable pub usb_main : Run
  usb_main =
      if not (registers usb)
      then record {
        actions = configure_rpc_threadpool 2 ∷ register_as_service usb ∷ [];
        exit_code = 1;
      }
      else if not (registers usb_gadget)
      then record {
        actions =
            configure_rpc_threadpool 2
            ∷ register_as_service usb
            ∷ register_as_service usb_gadget
            ∷ [];
        exit_code = 1;
      }
      else record {
        actions =
            configure_rpc_threadpool 2
            ∷ register_as_service usb
            ∷ register_as_service usb_gadget
            ∷ join_rpc_threadpool
            ∷ [];
        exit_code = 1;
      }

  -- `has_instance` is whether `getInstance` returns an object.
  unfoldable pub fingerprint_main : Bool → Run
  fingerprint_main has_instance =
      if has_instance
      then (if registers fingerprint
          then record {
            actions =
                configure_rpc_threadpool 1
                ∷ register_as_service fingerprint
                ∷ join_rpc_threadpool
                ∷ [];
            exit_code = 0;
          }
          else record {
            actions = configure_rpc_threadpool 1 ∷ register_as_service fingerprint ∷ [];
            exit_code = 1;
          })
      else record { actions = configure_rpc_threadpool 1 ∷ join_rpc_threadpool ∷ []; exit_code = 0 }

  -- A process serves calls exactly when all that it registers is registered; only the one of the
  -- fingerprint would also serve without an object.
  pub mains_join :
      (has_instance : Bool)
      → (joins sensors_main.actions ≡ registers sensors)
        × (joins usb_main.actions ≡ (registers usb && registers usb_gadget))
        × (joins (fingerprint_main has_instance).actions
            ≡ (registers fingerprint || not has_instance))
  unfolding sensors_main usb_main fingerprint_main joins
  mains_join has_instance = ground arith
