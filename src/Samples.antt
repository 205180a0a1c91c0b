-- ===== src/Samples.antt =====
-- The sample applications under samples/.
pub mod Float
pub mod Shell
pub mod Foc
pub mod Subscription
pub mod Robot
pub mod Throughput
pub mod Imu
