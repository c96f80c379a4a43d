-- ===== src/Tests.antt =====
-- Runs of the models on concrete inputs, and the theorems applied to them.
mod Quad
mod Rb
mod Pq
mod Sessions
mod Wheel
mod Hh
mod Lists
mod Support
