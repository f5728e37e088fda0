-- ===== src/Pylontech/Payload.antt =====
-- The INFO payloads and their serialisers (include/pylontech.hpp, src/pylontech.cpp), a file for
-- each. uint8_t and uint16_t fields are numbers below 2 ^ 8 and 2 ^ 16, int16_t fields integers.
pub mod Analog
pub mod Alarm
pub mod SystemParameter
pub mod ChargeManagement
