-- ===== src/Tx/AtomicTests.antt =====
-- The theorem of Tx/Atomic at a commit that is cut off in the middle.
use proxy_gateway_plus.Prelude.{Option, String_eq, Option_eq}
use proxy_gateway_plus.Tx.Undone.{Apart as Distinct}
