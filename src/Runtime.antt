-- ===== src/Runtime.antt =====
-- runtime/hcrt.c: the runtime that compiled programs are linked with, a module for each section.
pub mod Exceptions
pub mod Output
pub mod Format
pub mod Date
pub mod Bits
pub mod Arithmetic
