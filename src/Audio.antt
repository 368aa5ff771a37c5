-- ===== src/Audio.antt =====
-- hw1/src: the recoder of Sun audio (.au) streams.
pub mod Io
pub mod Header
pub mod Rand
pub mod Frame
pub mod Crypt
pub mod Args
pub mod Annotation
pub mod Speed
pub mod Recode
mod Tests
