-- ===== src/Bmp.antt =====
-- lib/xdb_bmp.c: the bitmaps in which a transaction keeps its new and deleted rows.
pub mod Word
pub mod Scan
pub mod Leaf
pub mod Root
