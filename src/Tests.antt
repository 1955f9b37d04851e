-- ===== src/Tests.antt =====
-- Runs of the model on small inputs, and the theorems at inputs that meet their hypotheses.
mod Samples
mod Comparing
mod Queue
mod References
mod Backends
mod Locations
mod Upstreams
mod Admission
mod Dynamic
mod Placing
mod Removed
mod Servers
mod Building
mod Sizes
mod Rendering
mod Syncs
mod Streams
