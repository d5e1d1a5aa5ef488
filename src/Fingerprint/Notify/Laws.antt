-- ===== src/Fingerprint/Notify/Laws.antt =====
-- What the client can tell of the vendor's message.
use device_xiaomi_camellia.Base.{ℕ, ◌≡◌, ◌≢◌, refl, ◌⊎◌, some, [], arith}
use device_xiaomi_camellia.Fingerprint.Filters.{
  Labels, error_unable_to_process, acquired_insufficient, vendor_error_filter,
  vendor_acquired_filter,
}
use device_xiaomi_camellia.Fingerprint.Filters.Laws.{
  vendor_error, vendor_acquired, vendor_error-vendor_error_filter,
  vendor_acquired-vendor_acquired_filter,
}
use device_xiaomi_camellia.Fingerprint.Device.{BiometricsFingerprint, device_id, set_notify}
use device_xiaomi_camellia.Fingerprint.Notify.{
  Message, error, acquired, template_enrolling, template_removed, template_enumerating,
  authenticated, other, Told, on_error, on_acquired, on_enroll_result, on_removed, on_enumerate,
  on_authenticated, dispatch, notify,
}

module _ (l : Labels) where
  -- The message behind a call, as far as the call tells it.
  pub message_of : Told → Message
  message_of (on_error id result vendor_code) = error (vendor_error l (result, vendor_code))
  message_of (on_acquired id result vendor_code) =
      acquired (vendor_acquired l (result, vendor_code))
  message_of (on_enroll_result id fid gid remaining) = template_enrolling fid gid remaining
  message_of (on_removed id fid gid remaining) = template_removed fid gid remaining
  message_of (on_enumerate id fid gid remaining) = template_enumerating fid gid remaining
  message_of (on_authenticated id fid gid token) = authenticated fid gid token

  -- The id of the device in a call.
  pub id_of : Told → ℕ
  id_of (on_error id result vendor_code) = id
  id_of (on_acquired id result vendor_code) = id
  id_of (on_enroll_result id fid gid remaining) = id
  id_of (on_removed id fid gid remaining) = id
  id_of (on_enumerate id fid gid remaining) = id
  id_of (on_authenticated id fid gid token) = id

  -- A message that the callback can tell in full: not an error that is called "unable to process",
  -- not an acquired message that is called "insufficient", of a type that is known, and a finger
  -- that was not recognized comes without a token.
  abbrev pub IsTold : Message → Type 0
  IsTold (error number) = (vendor_error_filter l number).0 ≢ error_unable_to_process
  IsTold (acquired info) = (vendor_acquired_filter l info).0 ≢ acquired_insufficient
  IsTold (authenticated fid gid hat) = (fid ≢ 0) ⊎ (hat ≡ [])
  IsTold other = ⊥
  IsTold _ = Unit {0}

  dispatch-message_of :
      (id : ℕ) (message : Message)
      → IsTold message
      → (t : Told) × (dispatch l id message ≡ some t) × (message_of t ≡ message) × (id_of t ≡ id)
  unfolding dispatch message_of id_of
  dispatch-message_of id (error number) h =
      (_, refl, ground (arith, vendor_error-vendor_error_filter l number h), refl)
  dispatch-message_of id (acquired info) h =
      (_, refl, ground (arith, vendor_acquired-vendor_acquired_filter l info h), refl)
  dispatch-message_of id (template_enrolling fid gid remaining) h = (_, refl, refl, refl)
  dispatch-message_of id (template_removed fid gid remaining) h = (_, refl, refl, refl)
  dispatch-message_of id (template_enumerating fid gid remaining) h = (_, refl, refl, refl)
  dispatch-message_of id (authenticated fid gid hat) h =
      (on_authenticated id fid gid hat, ground arith, refl, refl)
  dispatch-message_of id other h = absurd h

  -- Once a client has registered its callback, a message that a callback can tell in full reaches
  -- it with the id that the registration returned, and the message can be read off the call.
  pub notify-set_notify :
      (client : ℕ) (this : BiometricsFingerprint) (message : Message)
      → IsTold message
      → let (id, this') = set_notify (some client) this in
        (t : Told) × (notify l this' message ≡ some t) × (message_of t ≡ message) × (id_of t ≡ id)
  unfolding notify set_notify
  notify-set_notify client this message h = dispatch-message_of (device_id this) message h
