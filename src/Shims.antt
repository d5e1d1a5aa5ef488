-- ===== src/Shims.antt =====
-- libshims/libshim_sink.cpp: the constructor of `AudioTrack` under the name with one more text,
-- which calls the constructor without it. That constructor is the platform's, and a parameter.
use device_xiaomi_camellia.Base.{ℕ, Bool, String}

-- What both constructors take; `P` is what a pointer, a reference or an enumeration stands for.
pub record Arguments (P : Type 0) : Type 0 where
  pub this_ptr : P
  pub stream_type : P
  pub sample_rate : ℕ
  pub format : P
  pub channel_mask : P
  pub frame_count : ℕ
  pub flags : P
  pub callback : P
  pub notification_frames : ℕ
  pub session_id : P
  pub transfer_type : P
  pub offload_info : P
  pub attribution_source : P
  pub p_attributes : P
  pub do_not_reconnect : Bool
  pub max_required_speed : P
  pub selected_device_id : P

module _ {P W : Type 0} (audio_track : Arguments P → W → W) where
  unfoldable pub audio_track_with_text : Arguments P → String → W → W
  audio_track_with_text arguments unknown w = audio_track arguments w
