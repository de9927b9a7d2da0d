-- ===== src/Domain.antt =====
-- crates/domain: the state of the window manager, its configuration and its events.
mod Geometry
mod Modes
mod Entities
mod Config
mod State
mod Normalize
mod Events
mod Payloads
pub mod Order
pub mod Labels
pub mod Extent
pub mod Normal
unfoldable pub use Geometry.*
unfoldable pub use Modes.*
unfoldable pub use Entities.*
unfoldable pub use Config.*
unfoldable pub use State.*
unfoldable pub use Normalize.*
pub use Payloads.*
pub use Events.{EventCategory, EventSource, DomainEventName}
unfoldable pub use Events.{event_name_as_str}
