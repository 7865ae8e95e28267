-- ===== src/Matrix.antt =====
-- sefdm/algorythms/test.list.161.c: matrices of complex numbers as tables of linked columns.
pub mod Table
pub mod Chain
pub mod Spec
pub mod Filled
pub mod Product
pub mod Rows
pub mod Invert
