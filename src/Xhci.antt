-- ===== src/Xhci.antt =====
-- The USB host controller driver, drivers/usb/xhcid/src/xhci, as far as it is modelled: the
-- transfer request blocks and the rings that hold them.
pub mod Trb
pub mod Ring
