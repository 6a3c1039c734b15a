-- ===== src/Examples.antt =====
-- The theorems at concrete inputs.
mod Files
mod Networks
mod Texts
mod Running
mod Web
mod Pages
mod Devices
