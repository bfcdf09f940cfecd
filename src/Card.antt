-- ===== src/Card.antt =====
-- sdk_port/card: the block allocator of a memory card, its directory, and the arithmetic of its
-- unlock protocol.
pub mod Fat
pub mod Dir
pub mod Unlock
pub mod Check
pub mod Memcard
use gamecube_port.Base.{Bool, true, false}

-- The result codes `PORT_CARD_RESULT_*`, `PORT_CARD_DIR_RESULT_*` and `CARD_RESULT_*`, of which only `ready` is not
-- negative.
pub data CardResult : Type 0 where
  ready : CardResult
  nocard : CardResult
  nofile : CardResult
  broken : CardResult
  encoding : CardResult
  insspace : CardResult
  noperm : CardResult
  limit : CardResult
  fatal_error : CardResult

-- `result < 0`
abbrev pub is_error : CardResult → Bool
is_error ready = false
is_error r = true
