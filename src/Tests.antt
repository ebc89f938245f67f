-- ===== src/Tests.antt =====
-- Runs at concrete inputs: the theorems applied where their hypotheses hold.
mod Sizes
mod Toy
mod Names
mod Keys
mod Caches
mod Aads
mod Parts
mod Streams
mod Wire
mod Uploads
mod Slices
mod Deks
mod Headers
