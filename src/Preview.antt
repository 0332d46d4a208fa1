-- ===== src/Preview.antt =====
-- presentation/preview/parser.rs: the reader of a tool call's arguments while a model writes them.
-- Text is a list of characters, a `String` a list with its capacity. Vectors that are stacks have their
-- top first.
pub mod Escapes
pub mod Units
pub mod Surrogates
pub mod Buffers
pub mod Tokens
pub mod Steps
pub mod Holds
pub mod Bounds
pub mod Decodes
pub mod Safe
pub mod Values
pub mod Feeds
pub mod Streams
mod Tests
