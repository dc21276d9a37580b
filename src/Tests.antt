-- ===== src/Tests.antt =====
-- Tests of the models on concrete inputs, and the theorems applied at such inputs.
mod Rings
mod Bitsets
mod Heaps
mod Pages
mod Spaces
mod Slabs
mod Times
mod Usb
mod Tables
mod Messages
mod Mappings
mod Files
