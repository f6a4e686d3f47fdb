-- ===== src/Passwd/Verdicts.antt =====
-- src/run-passwd.c: the words that the output is searched for.
use furios_initial_setup.Common.{arith, false, true, ◌≡◌, ◌⊎◌}
use furios_initial_setup.Common.Bytes.{Bytes, strstr}
use furios_initial_setup.Passwd.Messages.{classify, is_string_complete, verdict_words}
use furios_initial_setup.Passwd.State.{auth_failed, rejected, unknown, unknown_error}

-- An output that ends the change, and does not say that it worked, says what was wrong with the
-- password, unless `passwd` says nothing of it but "BAD PASSWORD".
classify_complete :
    (text : Bytes)
    → is_string_complete text verdict_words ≡ true
    → strstr text "successfully" ≡ false
    → (classify text).message ≡ unknown_error
    → strstr text "BAD PASSWORD" ≡ true
unfolding is_string_complete classify
classify_complete text c s e = ground arith

-- The codes REAUTH_FAILED and BACKEND are never given.
pub classify_codes :
    (text : Bytes)
    → ((classify text).code ≡ rejected)
      ⊎ ((classify text).code ≡ auth_failed)
      ⊎ ((classify text).code ≡ unknown)
unfolding classify
classify_codes text = ground arith
