-- ===== src/Examples.antt =====
-- Runs of the components on concrete inputs.
mod StatusExamples
mod QueueExamples
mod StreamExamples
mod RuntimeExamples
mod BufferExamples
mod TracerExamples
mod PoolExamples
mod DeviceExamples
mod ValueListExamples
mod ObjectsExamples
mod HandleExamples
mod HipExamples
