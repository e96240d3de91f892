-- ===== src/UcxApi/Commands.antt =====
-- The functions of ucx_api/generated that send commands, one for each, with the values that they are
-- given for the parameters; a length that goes with a pointer is the length of the bytes, and an
-- enumerator is its number.
pub mod Bluetooth
pub mod BluetoothAdvertise
pub mod BluetoothSecurity
pub mod Diagnostics
pub mod GattClient
pub mod GattServer
pub mod General
pub mod Http
pub mod Mqtt
pub mod NetworkTime
pub mod Power
pub mod Security
pub mod Socket
pub mod Sps
pub mod System
pub mod WifiAp
pub mod WifiStation
