-- ===== src/FunctionPass.antt =====
-- The other version of the pass, HelloWorld/function.cpp: it names the function in place of the
-- source file, and logs invokes only.
pub mod Handle
pub mod Run
pub mod Readable
pub mod Module
