-- ===== src/Codegen.antt =====
-- src/codegen.cpp: the parts of the code generator whose logic is its own.
pub mod Constant
pub mod Try
pub mod Types
