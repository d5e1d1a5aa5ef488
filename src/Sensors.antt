-- ===== src/Sensors.antt =====
-- The sensors multi-HAL proxy: sensors/HalProxy.cpp and sensors/HalProxyCallback.cpp.
pub mod Platform
pub mod Handle
pub mod Wakelock
pub mod EventQueue
pub mod SensorList
pub mod Dynamic
pub mod Callback
pub mod Proxy
pub mod Initialize
pub mod Stop
pub mod Loading
pub mod Debug
pub mod System
