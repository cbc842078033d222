-- ===== src/Native/Answer.antt =====
-- A routine of the native platform returns, ends in a failed assertion, or is still in a loop when
-- the fuel runs out.
pub data Answer (A : Type 0) : Type 0 where
  done : A → Answer A
  asserted : Answer A
  spinning : Answer A
