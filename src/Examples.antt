-- ===== src/Examples.antt =====
-- Concrete inputs on which the theorems about the code apply.
mod Protocol
mod Pairing
mod Wifi
mod Gimbal
mod Safety
mod Commands
mod Sticks
mod Video
mod Input
mod Transport
