-- ===== src/Usb/Port.antt =====
-- usb/Usb.cpp: the ports of the USB HAL. The numbers of the roles stand in the interface of the
-- platform: they are the parameter `Roles`. The files below /sys are a map from paths to the
-- first line of each, without its end.
pub mod Role
pub mod Report
pub mod Switch
pub mod Callback
pub mod Uevent
pub mod Work
use device_xiaomi_camellia.Base.{ℕ, Option, String, List}

pub data PortRoleType : Type 0 where
  data_role power_role mode other : PortRoleType

-- `PortPowerRole`, `PortDataRole` and `PortMode_1_1`.
pub record Roles : Type 0 where
  pub power_none : ℕ
  pub power_source : ℕ
  pub power_sink : ℕ
  pub data_none : ℕ
  pub data_host : ℕ
  pub data_device : ℕ
  pub mode_none : ℕ
  pub mode_ufp : ℕ
  pub mode_dfp : ℕ
  pub mode_drp : ℕ
  pub mode_audio_accessory : ℕ
  pub mode_debug_accessory : ℕ

-- The values of android.hardware.usb@1.0 and @1.1.
abbrev pub roles : Roles
roles = record {
  power_none = 0;
  power_source = 1;
  power_sink = 2;
  data_none = 0;
  data_host = 1;
  data_device = 2;
  mode_none = 0;
  mode_ufp = 1;
  mode_dfp = 2;
  mode_drp = 3;
  mode_audio_accessory = 4;
  mode_debug_accessory = 8;
}

pub data Status : Type 0 where
  success error unrecognized_role : Status

abbrev pub Sys : Type 0
Sys = String → Option String
