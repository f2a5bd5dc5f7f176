-- ===== src/Capture/Controller.antt =====
-- capture/controller.py: `CameraController`, the one owner of a camera backend.
pub mod Counters
pub mod State
pub mod World
pub mod Backend
pub mod Offer
pub mod Stream
pub mod Open
pub mod Run
pub mod Lifecycle
pub mod Triples
pub mod Protocol
pub mod Quiet
pub mod Stays
pub mod Stuck
