-- ===== src/Biomd.antt =====
-- src/pt-security-settings-fingerprint.c and src/pt-security-settings-face.c: a call of biomd that is waited
-- for.
use furios_initial_setup.Common.{Bool, false}

-- What comes of it: there is no proxy, the call fails, or it is answered.
pub data SyncReply : Type 0 where
  no_proxy call_failed : SyncReply
  answered_with : Bool → SyncReply

-- The answer, which is FALSE for a failure.
abbrev pub answer_or_false : SyncReply → Bool
answer_or_false no_proxy = false
answer_or_false call_failed = false
answer_or_false (answered_with b) = b
