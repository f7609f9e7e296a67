-- ===== src/Tests.antt =====
-- The theorems at concrete inputs, over the sample of libopenpresso in Core/Sample.
pub mod Fixtures
pub mod TimerTests
pub mod StatusTests
pub mod MachineTests
pub mod ProfilesTests
pub mod DispatcherTests
pub mod StreamTests
pub mod ThreadsTests
pub mod ConfigTests
pub mod ServiceTests
pub mod MetricsTests
pub mod StartTests
