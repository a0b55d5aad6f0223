-- ===== src/Tests.antt =====
-- Runs of the model on concrete inputs, and the theorems at concrete inputs.
mod Format
mod Heap
mod Controls
mod Debug
mod Equal
mod Files
mod Lznt1
mod Registry
mod Resources
mod Rtl
mod Splay
mod Wide
mod Events
mod Keyboard
mod Imports
mod Loader
mod Timeouts
mod Waits
