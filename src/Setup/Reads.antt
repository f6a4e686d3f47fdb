-- ===== src/Setup/Reads.antt =====
-- src/run-passwd.c and src/pt-security-settings.c: what is known of the handler of a change, at each
-- output of its process.
use furios_initial_setup.Common.{
  Bool-cases, List, [], arith, false, inl, inr, none, refl, some, true, ◌++◌, ◌==◌, ◌∷◌, ◌≡◌,
}
use furios_initial_setup.Common.Bytes.{Bytes, strstr}
use furios_initial_setup.Passwd.Messages.{is_authenticated, is_string_complete, verdict_words}
use furios_initial_setup.Passwd.Process.{Spawn}
use furios_initial_setup.Passwd.State.{Effect, applied, auth, idle, new, retype, wrote}
use furios_initial_setup.Passwd.Watch.{io_watch_stdout}
use furios_initial_setup.Security.Apply.{Handler, default_password, notify, password_changed}
use furios_initial_setup.Security.Protocol.{line}
use furios_initial_setup.Setup.Sent.{
  HasProcess, Outcome, Sound, Within, asking, ended, failed, opened, fair-Outcome, sent_default,
  sent_once, sent_twice, succeeded, unwanted, unwanted_again,
}

module _ (P : Bytes → Type 0) (entry : Bytes) (allowed : P entry) (again : Spawn)
    (log : List Effect) (buffer : Bytes) where
  abbrev pub printed : Bytes → Handler → Handler
  printed chunk h = io_watch_stdout (notify entry again) (some chunk) (opened buffer h)

  -- The first prompt.
  asking-Outcome :
      (h : Handler) (chunk : Bytes)
      → HasProcess h
      → h.backend_state ≡ idle
      → h.backend_stdin_queue ≡ line default_password ∷ []
      → h.chpasswd_cb ≡ none
      → Outcome P log (printed chunk h)
  unfolding io_watch_stdout
  asking-Outcome h chunk p s q n =
      let r = printed chunk h in
      elim (Bool-cases (is_string_complete (buffer ++ chunk) ("assword: " ∷ []))) [
        | inl t ↦ elim (Bool-cases (is_string_complete (buffer ++ chunk) ("new" ∷ "New" ∷ []))) [
          | inl u ↦
              fair-Outcome P log [] r (ground arith)
                (unwanted (ground arith) (ground arith) (ground arith)) (inl tt)
          | inr u ↦
              fair-Outcome P log (wrote (line default_password) ∷ []) r (ground arith)
                (sent_default (ground arith) (ground arith) (ground arith) (ground arith)
                  (inl (refl, tt)))
                (inl (tt, tt))
        ]
        | inr t ↦
            fair-Outcome P log [] r (ground arith)
              (asking (ground arith) (ground arith) (ground arith) (ground arith)) (inl tt)
      ]

  -- The answer to the default password.
  sent_default-Outcome :
      (h : Handler) (chunk : Bytes)
      → HasProcess h
      → h.backend_state ≡ auth
      → h.backend_stdin_queue ≡ []
      → h.chpasswd_cb ≡ none
      → Within (wrote (line default_password) ∷ []) log
      → Outcome P log (printed chunk h)
  unfolding io_watch_stdout notify
  sent_default-Outcome h chunk p s q n sent =
      let r = printed chunk h in
      let text = buffer ++ chunk in
      elim (Bool-cases
        (is_string_complete text ("assword: " ∷ "failure" ∷ "wrong" ∷ "error" ∷ []))) [
          | inl t ↦ elim (Bool-cases (is_authenticated text)) [
            | inl u ↦
                fair-Outcome P log (wrote (line entry) ∷ []) r (ground arith)
                  (sent_once entry allowed (ground arith) (ground arith) (ground arith)
                    (inl (refl, sent)))
                  (inl (tt, tt))
            | inr u ↦
                fair-Outcome P log (applied false ∷ []) r (ground arith)
                  (sent_default (ground arith) (ground arith) (ground arith) (ground arith)
                    (inr sent))
                  (inl (refl, tt))
          ]
          | inr t ↦
              fair-Outcome P log [] r (ground arith)
                (sent_default (ground arith) (ground arith) (ground arith) (ground arith) sent)
                (inl tt)
        ]

  -- The prompts of a process that was given no password.
  unwanted-Outcome :
      (h : Handler) (chunk : Bytes)
      → h.backend_state ≡ new
      → h.backend_stdin_queue ≡ []
      → h.chpasswd_cb ≡ none
      → Outcome P log (printed chunk h)
  unfolding io_watch_stdout
  unwanted-Outcome h chunk s q n =
      let r = printed chunk h in
      elim (Bool-cases (is_string_complete (buffer ++ chunk) ("assword: " ∷ []))) [
        | inl t ↦
            fair-Outcome P log [] r (ground arith) (unwanted_again (ground arith) (ground arith))
              (inl tt)
        | inr t ↦
            fair-Outcome P log [] r (ground arith)
              (unwanted (ground arith) (ground arith) (ground arith)) (inl tt)
      ]

  unwanted_again-Outcome :
      (h : Handler) (chunk : Bytes)
      → h.backend_state ≡ retype
      → h.chpasswd_cb ≡ none
      → Outcome P log (printed chunk h)
  unfolding io_watch_stdout
  unwanted_again-Outcome h chunk s n =
      let r = printed chunk h in
      let text = buffer ++ chunk in
      elim (Bool-cases (is_string_complete text verdict_words)) [
        | inl t ↦ elim (Bool-cases (strstr text "successfully")) [
          | inl u ↦ fair-Outcome P log [] r (ground arith) (succeeded (ground arith)) (inl tt)
          | inr u ↦ fair-Outcome P log [] r (ground arith) (failed (ground arith)) (inl tt)
        ]
        | inr t ↦
            fair-Outcome P log [] r (ground arith) (unwanted_again (ground arith) (ground arith))
              (inl tt)
      ]

  -- The prompt for the new password, once more.
  sent_once-Outcome :
      (h : Handler) (chunk p : Bytes)
      → P p
      → h.backend_state ≡ new
      → h.backend_stdin_queue ≡ line p ∷ []
      → h.chpasswd_cb ≡ some password_changed
      → Within (wrote (line p) ∷ wrote (line default_password) ∷ []) log
      → Outcome P log (printed chunk h)
  unfolding io_watch_stdout
  sent_once-Outcome h chunk p k s q n sent =
      let r = printed chunk h in
      elim (Bool-cases (is_string_complete (buffer ++ chunk) ("assword: " ∷ []))) [
        | inl t ↦
            fair-Outcome P log (wrote (line p) ∷ []) r (ground arith)
              (sent_twice p k (ground arith) (ground arith) (inl (refl, sent))) (inl (tt, tt))
        | inr t ↦
            fair-Outcome P log [] r (ground arith)
              (sent_once p k (ground arith) (ground arith) (ground arith) sent) (inl tt)
      ]

  -- The verdict on the new password.
  sent_twice-Outcome :
      (h : Handler) (chunk p : Bytes)
      → P p
      → h.backend_state ≡ retype
      → h.chpasswd_cb ≡ some password_changed
      → Within (wrote (line p) ∷ wrote (line p) ∷ wrote (line default_password) ∷ []) log
      → Outcome P log (printed chunk h)
  unfolding io_watch_stdout notify
  sent_twice-Outcome h chunk p k s n sent =
      let r = printed chunk h in
      let text = buffer ++ chunk in
      elim (Bool-cases (is_string_complete text verdict_words)) [
        | inl t ↦ elim (Bool-cases (strstr text "successfully")) [
          | inl u ↦
              fair-Outcome P log (applied true ∷ []) r (ground arith) (succeeded (ground arith))
                (inr (p, k, inl (refl, sent)))
          | inr u ↦
              fair-Outcome P log (applied false ∷ []) r (ground arith) (failed (ground arith))
                (inl (refl, tt))
        ]
        | inr t ↦
            fair-Outcome P log [] r (ground arith)
              (sent_twice p k (ground arith) (ground arith) sent) (inl tt)
      ]

  -- What a process prints, while it is watched.
  pub printed-Outcome :
      (h : Handler) (chunk : Bytes)
      → (h.backend_stdout_watch_id == 0) ≡ false
      → Sound P log h
      → Outcome P log (printed chunk h)
  unfolding io_watch_stdout
  printed-Outcome h chunk live (ended a b) = ground (arith, a, live)
  printed-Outcome h chunk live (asking p a b c) = asking-Outcome h chunk p a b c
  printed-Outcome h chunk live (sent_default p a b c d) = sent_default-Outcome h chunk p a b c d
  printed-Outcome h chunk live (unwanted a b c) = unwanted-Outcome h chunk a b c
  printed-Outcome h chunk live (unwanted_again a b) = unwanted_again-Outcome h chunk a b
  printed-Outcome h chunk live (sent_once p k a b c d) = sent_once-Outcome h chunk p k a b c d
  printed-Outcome h chunk live (sent_twice p k a b c) = sent_twice-Outcome h chunk p k a b c
  printed-Outcome h chunk live (succeeded a) =
      fair-Outcome P log [] (printed chunk h) (ground arith) (succeeded (ground arith)) (inl tt)
  printed-Outcome h chunk live (failed a) =
      fair-Outcome P log [] (printed chunk h) (ground arith) (failed (ground arith)) (inl tt)
