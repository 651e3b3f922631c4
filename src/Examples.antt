-- ===== src/Examples.antt =====
-- Runs of the model at concrete inputs.
mod Logic
mod Store
mod Clocks
mod Network
mod Flow
mod Observed
mod Regions
mod Sections
mod Machine
