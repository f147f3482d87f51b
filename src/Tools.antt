-- ===== src/Tools.antt =====
-- The command line tools of cmd: the generator of test data, the load test and the end-to-end test.
pub mod Random
pub mod Message
pub mod Delivery
pub mod TestData
pub mod Schedule
pub mod Producer
pub mod LoadTest
pub mod EndToEnd
