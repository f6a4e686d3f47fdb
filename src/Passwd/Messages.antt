-- ===== src/Passwd/Messages.antt =====
-- src/run-passwd.c: what the output of `passwd` means.
use furios_initial_setup.Common.{
  Bool, List, String, [], false, if◌then◌else◌, is_empty, not, ◌&&◌, ◌||◌, ◌∷◌,
}
use furios_initial_setup.Common.Bytes.{Bytes, c_string, strstr}
use furios_initial_setup.Passwd.State.{
  Error, Message, auth_failed, changed_since, few_different, needs_numeric, output, rejected,
  same_password, too_short, too_similar, too_simple, unknown, unknown_error, used_recently,
}

any_occurs : Bytes → List String → Bool
any_occurs text [] = false
any_occurs text (word ∷ words) = strstr text word || any_occurs text words

-- `is_string_complete`
unfoldable pub is_string_complete : Bytes → List String → Bool
unfolding any_occurs
is_string_complete text words = if is_empty (c_string text) then false else any_occurs text words

-- `passwd` asks for the next password after it has accepted the current one.
abbrev pub is_authenticated : Bytes → Bool
is_authenticated text =
    strstr text "assword: " && (not (strstr text "incorrect") && not (strstr text "urrent"))

abbrev pub verdict_words : List String
verdict_words =
    "successfully" ∷ "short" ∷ "longer" ∷ "palindrome" ∷ "dictionary" ∷ "simple" ∷ "simplistic"
    ∷ "similar" ∷ "case" ∷ "different" ∷ "wrapped" ∷ "recovered" ∷ "recent" ∷ "unchanged" ∷ "match"
    ∷ "1 numeric or special" ∷ "failure" ∷ "DIFFERENT" ∷ "BAD PASSWORD" ∷ []

reject : Message → Error
reject message = record { code = rejected; message = message }

-- The error of a change that failed, by the words in the output.
unfoldable pub classify : Bytes → Error
unfolding reject
classify text =
    if strstr text "recovered"
    then record { code = unknown; message = output text }
    else if strstr text "short" || strstr text "longer"
    then reject too_short
    else if strstr text "palindrome"
        || (strstr text "simple" || (strstr text "simplistic" || strstr text "dictionary"))
    then reject too_simple
    else if strstr text "similar"
        || (strstr text "different" || (strstr text "case" || strstr text "wrapped"))
    then reject too_similar
    else if strstr text "recent"
    then reject used_recently
    else if strstr text "1 numeric or special"
    then reject needs_numeric
    else if strstr text "unchanged" || strstr text "match"
    then reject same_password
    else if strstr text "failure"
    then record { code = auth_failed; message = changed_since }
    else if strstr text "DIFFERENT"
    then reject few_different
    else record { code = unknown; message = unknown_error }
