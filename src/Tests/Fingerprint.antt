-- ===== src/Tests/Fingerprint.antt =====
-- Small inputs for fingerprint/BiometricsFingerprint.cpp: a vendor whose calls all succeed.
use device_xiaomi_camellia.Base.{
  ℕ, ◌≡◌, ◌⊎◌, inl, true, none, some, [], ◌∷◌, String, str_eq, if◌then◌else◌, suc,
}
use device_xiaomi_camellia.Fingerprint.Filters.{labels}
use device_xiaomi_camellia.Fingerprint.Device.{
  Module, Vendor, BiometricsFingerprint, goodix, fpc, open_hal, biometrics_fingerprint,
  fp_hal_to_string, set_notify,
}
use device_xiaomi_camellia.Fingerprint.Device.Laws.{biometrics_fingerprint_lem}
use device_xiaomi_camellia.Fingerprint.Notify.{authenticated, notify, Told}
use device_xiaomi_camellia.Fingerprint.Notify.Laws.{notify-set_notify, message_of, id_of}

-- Only the second module is there.
abbrev modules : String → Module
modules name = record {
  get_error = if str_eq name "gf_fingerprint" then 0 else 2;
  has_module = true;
  has_open = true;
  open_error = 0;
  version = 0x201;
  set_notify_error = 0;
  address = 64;
}

biometrics_fingerprint_lem_example :
    let (this, vendor) = biometrics_fingerprint 0x201 modules "fingerprint" fpc in
    ((device : ℕ) × (open_hal 0x201 modules "fingerprint" ≡ some device)
      × (this.device ≡ some device)
      × (vendor ≡ "fpc"))
    ⊎ ((open_hal 0x201 modules "fingerprint" ≡ none)
        × ((device : ℕ) × (open_hal 0x201 modules "gf_fingerprint" ≡ some device)
            × (this.device ≡ some device)
            × (vendor ≡ "goodix")))
    ⊎ ((open_hal 0x201 modules "fingerprint" ≡ none)
        × (open_hal 0x201 modules "gf_fingerprint" ≡ none)
        × (this.device ≡ none)
        × (vendor ≡ fp_hal_to_string fpc))
biometrics_fingerprint_lem_example = biometrics_fingerprint_lem 0x201 modules "fingerprint" fpc

-- The vendor's state counts its calls.
abbrev vendor : Vendor ℕ
vendor = record {
  pre_enroll = λ d n. (17, suc n);
  enroll = λ d hat gid timeout n. (0, suc n);
  post_enroll = λ d n. (0, suc n);
  get_authenticator_id = λ d n. (5, suc n);
  cancel = λ d n. (0, suc n);
  enumerate = λ d n. (0, suc n);
  remove = λ d gid fid n. (0, suc n);
  set_active_group = λ d gid path n. (0, suc n);
  authenticate = λ d operation gid n. (0, suc n);
}

abbrev goodix_device : BiometricsFingerprint
goodix_device = record { client_callback = none; device = some 64; current_hal = goodix }

notify-set_notify_example :
    let (id, this) = set_notify (some 3) goodix_device in
    (t : Told) × (notify labels this (authenticated 2 1 (9 ∷ [])) ≡ some t)
    × (message_of labels t ≡ authenticated 2 1 (9 ∷ []))
    × (id_of labels t ≡ id)
notify-set_notify_example =
    notify-set_notify labels 3 goodix_device (authenticated 2 1 (9 ∷ [])) (inl (λ e. cc))
