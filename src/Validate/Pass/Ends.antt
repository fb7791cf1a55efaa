-- ===== src/Validate/Pass/Ends.antt =====
-- The passes end, because they stop at the greatest depth.
use py_pointless.Value.{Value}
use py_pointless.Validate.Pass.{Pass}
