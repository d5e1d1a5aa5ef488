-- ===== src/Usb.antt =====
-- usb/Usb.cpp and usb/UsbGadget.cpp: the ports and the gadget of the USB HAL.
pub mod World
pub mod Gadget
pub mod Port
