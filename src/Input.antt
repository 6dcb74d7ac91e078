-- ===== src/Input.antt =====
-- kernel/input and the reading half of kernel/drivers/input/keyboard.c: raw bytes from the
-- interrupt handler, through a ring and a scancode decoder, to characters.
pub mod Ring
pub mod Queue
pub mod Decoder
pub mod Keys
pub mod Keyboard
pub mod Reader
mod Tests
