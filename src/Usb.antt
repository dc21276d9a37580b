-- ===== src/Usb.antt =====
-- kernel/src/usb: the rings that the kernel shares with an xHCI controller.
pub mod Trb
pub mod ProducerRing
pub mod EventRing
