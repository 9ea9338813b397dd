-- ===== src/Configfile.antt =====
-- configloader/configfile.c: directives and blocks, and the operations on them. A pointer is an
-- `Option`, with `none` for NULL; an operation through a pointer returns what it points to
-- afterwards. An array and its count are one list; an array pointer is NULL exactly if the count
-- is 0, since the array is allocated when the first element is added.
mod Data
mod DirectiveOps
mod BlockOps
pub mod Present
pub mod Memory
pub mod BlockMemory
pub mod BlockCopy
pub mod Access
unfoldable pub use Data.*
unfoldable pub use DirectiveOps.*
unfoldable pub use BlockOps.*
