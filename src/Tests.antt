-- ===== src/Tests.antt =====
-- Runs of the model at concrete inputs, and the witnesses of the theorems.
mod Trees
mod Image
mod Witnesses
mod Maps
mod Leaves
mod Making
mod Invariant
mod Deep
mod Grown
mod Flushing
