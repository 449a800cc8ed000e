-- ===== src/Example.antt =====
-- examples/trouble-sdc-nrf5340: HCI packets over the channel, from the application core's host to the
-- network core's controller and back, and the stored bond. What comes from other crates (the controller,
-- the HCI types, the flash storage) is an argument.
pub mod Hci
pub mod Dispatch
pub mod WriteBuf
pub mod MyTransport
pub mod EndToEnd
pub mod Config
pub mod Start
pub mod RoundTrip
pub mod Cores
pub mod Zephyr
pub mod Spu
pub mod BondStore
pub mod Gatt
pub mod Fixtures
pub mod FlashFixtures
mod Tests
mod ChannelTests
mod StartTests
mod CommandTests
mod CoresTests
