-- ===== src/BatchRead/Invariant.antt =====
-- What holds in every state of BatchReadByLibAIO: which pieces were submitted, where they are, and
-- what the buffer holds.
mod Pieces
mod Moves
mod Rounds
mod Steps
mod Start
pub use Pieces.*
pub use Start.*
pub use Rounds.*
pub use Steps.*
pub use Moves.*
