-- ===== src/IntOps.antt =====
-- src/pointless_int_ops.c: checked arithmetic, and the evaluator of integer expressions.
pub mod Checked
pub mod Eval
