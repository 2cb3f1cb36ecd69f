-- ===== src/Time.antt =====
-- include/libzth/time.h: TimeInterval and Timestamp over struct timespec. time_t is a signed 64-bit
-- number; both fields of a timespec are integers here, so that what the code does to a field that
-- is out of range is in the model. Conversions from and to floating point are not.
pub mod Interval
pub mod Stamp
pub mod Arith
pub mod Normal
pub mod Order
mod Tests
