-- ===== src/Setup/Sent.antt =====
-- src/run-passwd.c and src/pt-security-settings.c: what was sent to `passwd` before a change of the password
-- is reported to have worked.
use furios_initial_setup.Common.{
  All, List, [], false, inr, is_some, none, some, true, ◌++◌, ◌∷◌, ◌≡◌, ◌⊎◌,
}
use furios_initial_setup.Common.Bytes.{Bytes}
use furios_initial_setup.Passwd.State.{Effect, applied, auth, done, err, idle, new, retype, wrote}
use furios_initial_setup.Security.Apply.{Handler, auth_callback, default_password, password_changed}
use furios_initial_setup.Security.Protocol.{line}
use furios_initial_setup.Setup.Step.{unlogged}

-- Effects that a log has in this order, among others.
abbrev pub Within : List Effect → List Effect → Type 0
Within [] log = Unit
Within (e ∷ es) [] = ⊥
Within (e ∷ es) (x ∷ log) = ((e ≡ x) × Within es log) ⊎ Within (e ∷ es) log

pub Within-cons : (x : Effect) (es log : List Effect) → Within es log → Within es (x ∷ log)
Within-cons x [] log h = tt
Within-cons x (e ∷ es) log h = inr h

pub Within-append : (newer es log : List Effect) → Within es log → Within es (newer ++ log)
Within-append [] es log h = h
Within-append (x ∷ newer) es log h = Within-cons x es (newer ++ log) (Within-append newer es log h)

-- The default password was sent, then twice one password for which `P` holds, and then a change was
-- reported to have worked; the newest effect is the first.
abbrev pub Paid : (Bytes → Type 0) → List Effect → Type 0
Paid P log =
    (password : Bytes) × P password
    × Within
        (applied true
          ∷ wrote (line password)
          ∷ wrote (line password)
          ∷ wrote (line default_password)
          ∷ [])
        log

-- An effect that is not the report of a success.
abbrev pub Unsuccessful : Effect → Type 0
Unsuccessful (applied ok) = ok ≡ false
Unsuccessful _ = Unit

abbrev pub HasProcess : Handler → Type 0
HasProcess h =
    (h.current_password ≡ some default_password)
    × (is_some h.backend_pid ≡ true)
    × (h.auth_cb ≡ some auth_callback)

-- What is known of a handler of the page, by the effects until now, where the entry holds only
-- passwords with `P`.
pub data Sound (P : Bytes → Type 0) (log : List Effect) (h : Handler) : Type 0 where
  ended : h.backend_stdout_watch_id ≡ 0 → h.backend_child_watch_id ≡ 0 → Sound P log h
  asking :
      HasProcess h
      → h.backend_state ≡ idle
      → h.backend_stdin_queue ≡ line default_password ∷ []
      → h.chpasswd_cb ≡ none
      → Sound P log h
  sent_default :
      HasProcess h
      → h.backend_state ≡ auth
      → h.backend_stdin_queue ≡ []
      → h.chpasswd_cb ≡ none
      → Within (wrote (line default_password) ∷ []) log
      → Sound P log h
  unwanted :
      h.backend_state ≡ new → h.backend_stdin_queue ≡ [] → h.chpasswd_cb ≡ none → Sound P log h
  unwanted_again : h.backend_state ≡ retype → h.chpasswd_cb ≡ none → Sound P log h
  sent_once :
      (password : Bytes)
      → P password
      → h.backend_state ≡ new
      → h.backend_stdin_queue ≡ line password ∷ []
      → h.chpasswd_cb ≡ some password_changed
      → Within (wrote (line password) ∷ wrote (line default_password) ∷ []) log
      → Sound P log h
  sent_twice :
      (password : Bytes)
      → P password
      → h.backend_state ≡ retype
      → h.chpasswd_cb ≡ some password_changed
      → Within
          (wrote (line password) ∷ wrote (line password) ∷ wrote (line default_password) ∷ [])
          log
      → Sound P log h
  succeeded : h.backend_state ≡ done → Sound P log h
  failed : h.backend_state ≡ err → Sound P log h

-- Further effects keep what is known.
pub Sound-append :
    (P : Bytes → Type 0) (newer log : List Effect) (h : Handler)
    → Sound P log h
    → Sound P (newer ++ log) h
Sound-append P newer log h (ended a b) = ended a b
Sound-append P newer log h (asking p a b c) = asking p a b c
Sound-append P newer log h (sent_default p a b c d) =
    sent_default p a b c (Within-append newer (wrote (line default_password) ∷ []) log d)
Sound-append P newer log h (unwanted a b c) = unwanted a b c
Sound-append P newer log h (unwanted_again a b) = unwanted_again a b
Sound-append P newer log h (sent_once p k a b c d) =
    sent_once p k a b c
      (Within-append newer (wrote (line p) ∷ wrote (line default_password) ∷ []) log d)
Sound-append P newer log h (sent_twice p k a b d) = sent_twice p k a b (
    Within-append newer (wrote (line p) ∷ wrote (line p) ∷ wrote (line default_password) ∷ []) log
      d)
Sound-append P newer log h (succeeded a) = succeeded a
Sound-append P newer log h (failed a) = failed a

-- What a call leaves: a handler of which something is known, and no success without the passwords.
abbrev pub Outcome : (Bytes → Type 0) → List Effect → Handler → Type 0
Outcome P log h =
    Sound P (h.log ++ log) (unlogged h) × (All Unsuccessful h.log ⊎ Paid P (h.log ++ log))

-- The handler of a change as a callback finds it.
abbrev pub opened : Bytes → Handler → Handler
opened buffer h = record h { buffer = buffer; log = [] }

-- An outcome, by the effects of the call.
pub fair-Outcome :
    (P : Bytes → Type 0) (log newer : List Effect) (h : Handler)
    → h.log ≡ newer
    → Sound P (newer ++ log) (unlogged h)
    → All Unsuccessful newer ⊎ Paid P (newer ++ log)
    → Outcome P log h
fair-Outcome P log newer h e sound paid = rw e (sound, paid)

-- A callback finds what is known.
pub Sound-opened :
    (P : Bytes → Type 0) (buffer : Bytes) (log : List Effect) (h : Handler)
    → Sound P log h
    → Sound P log (unlogged (opened buffer h))
Sound-opened P buffer log h (ended a b) = ended a b
Sound-opened P buffer log h (asking p a b c) = asking p a b c
Sound-opened P buffer log h (sent_default p a b c d) = sent_default p a b c d
Sound-opened P buffer log h (unwanted a b c) = unwanted a b c
Sound-opened P buffer log h (unwanted_again a b) = unwanted_again a b
Sound-opened P buffer log h (sent_once p k a b c d) = sent_once p k a b c d
Sound-opened P buffer log h (sent_twice p k a b d) = sent_twice p k a b d
Sound-opened P buffer log h (succeeded a) = succeeded a
Sound-opened P buffer log h (failed a) = failed a
