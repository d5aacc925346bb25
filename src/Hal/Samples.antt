-- ===== src/Hal/Samples.antt =====
-- Objects for the tests: the HAL object of a handle is 100 above it.
use hrx_system_rs.Base.{ℕ, ◌+◌}
use hrx_system_rs.Hal.{Objects, SemaphoreValue}

abbrev pub sample_objects : Objects
sample_objects = record {
  semaphore_hal = λ n. n + 100;
  buffer_hal = λ n. n + 100;
  executable_hal = λ n. n + 100;
  hal_device = λ n. n + 100;
}

abbrev pub entry : ℕ → ℕ → SemaphoreValue
entry semaphore value = record { semaphore = semaphore; value = value }
