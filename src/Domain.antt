-- ===== src/Domain.antt =====
-- src/domain/types.ts: the values that the components pass around.
mod Requests
mod Messages
mod Commands
pub use Requests.*
pub use Messages.*
pub use Commands.*
