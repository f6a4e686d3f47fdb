-- ===== src/Update/Provision/Script.antt =====
-- src/pt-update-progress.c: which scripts are run.
use furios_initial_setup.Common.{
  List, Option, Option-cases, [], ap, arith, inl, inr, length, none, refl, some, sym, true, ℕ, ◌∙◌,
  ◌∷◌, ◌≡◌, ◌≢◌, ◌⊎◌,
}
use furios_initial_setup.Common.Bytes.{Bytes}
use furios_initial_setup.Update.Provision.{
  Facts, Files, Library, Response, accepted_script, check_header, check_signature, provision_key,
  run_script,
}
use furios_initial_setup.Update.State.{
  Effect, Env, Progress, finish, init, spawn_script, write_script,
}
use furios_initial_setup.Update.Step.{
  Event, begins, provision_complete, pulses, run, signalled, step,
}
use furios_initial_setup.Update.Transaction.{
  Signal, aptkit_transaction_signal_cb, on_property, start_update_cache,
}

-- The answer has status 200, the script as its body, and in its header a signature of 64 bytes, encoded,
-- that is right for the script; the script is not empty.
pub record IsSigned (lib : Library) (script : Bytes) (r : Response) : Type 0 where
  pub text : Bytes
  pub signature : Bytes
  pub status : r.http_status ≡ 200
  pub headers : r.has_headers ≡ true
  pub header : r.signature ≡ some text
  pub decoded : lib.base64_decode text ≡ some signature
  pub size : length signature ≡ 64
  pub verified : lib.ed25519_verify signature script (provision_key lib) ≡ true
  pub whole : r.body ≡ some script
  pub not_empty : script ≢ []

-- What the signature of an answer that is accepted says.
abbrev IsCovered : Library → Bytes → Option Bytes → Bytes → Type 0
IsCovered lib sig body script =
    (length sig ≡ 64)
    × (lib.ed25519_verify sig script (provision_key lib) ≡ true)
    × (body ≡ some script)
    × (script ≢ [])

check_signature-IsCovered :
    (lib : Library) (sig : Bytes) (body : Option Bytes) (script : Bytes)
    → check_signature lib (some sig) body ≡ some script
    → IsCovered lib sig body script
unfolding check_signature
check_signature-IsCovered lib sig none script h = cc
check_signature-IsCovered lib sig (some []) script h = ground arith
check_signature-IsCovered lib sig (some (b ∷ body)) script h =
    (ground arith, ground arith, ground arith, ground arith)

check_signature-none : (lib : Library) (body : Option Bytes) → check_signature lib none body ≡ none
unfolding check_signature
check_signature-none lib body = refl

check_header-IsCovered :
    (lib : Library) (header body : Option Bytes) (script : Bytes)
    → check_header lib header body ≡ some script
    → (text : Bytes) × (sig : Bytes) × (header ≡ some text)
      × (lib.base64_decode text ≡ some sig)
      × IsCovered lib sig body script
unfolding check_header
check_header-IsCovered lib none body script h = cc
check_header-IsCovered lib (some []) body script h = cc
check_header-IsCovered lib (some (b ∷ text)) body script h =
    elim (Option-cases (lib.base64_decode (b ∷ text))) [
      | inl e ↦ cc (e, h, check_signature-none lib body)
      | inr (sig, e) ↦ (
        b ∷ text,
        sig,
        refl,
        e,
        check_signature-IsCovered lib sig body script
            (ap (λ o. check_signature lib o body) (sym e) ∙ h),
      )
    ]

accepted-IsSigned :
    (lib : Library) (r : Response) (script : Bytes)
    → accepted_script lib r ≡ some script
    → IsSigned lib script r
unfolding accepted_script
accepted-IsSigned lib r script h =
    let (text, sig, header, decoded, (size, verified, whole, not_empty)) =
      check_header-IsCovered lib r.signature r.body script (ground arith) in
    record {
      text = text;
      signature = sig;
      status = ground arith;
      headers = ground arith;
      header = header;
      decoded = decoded;
      size = size;
      verified = verified;
      whole = whole;
      not_empty = not_empty;
    }

-- The answers that came in.
abbrev Brings : Event → Response → Type 0
Brings (provision_complete files q) r = q ≡ r
Brings _ r = ⊥

abbrev pub Received : List (Env × Event) → Response → Type 0
Received [] r = ⊥
Received ((e, v) ∷ evs) r = Brings v r ⊎ Received evs r

-- The script that the file holds, which is empty before the first one is written.
abbrev pub written : List Effect → Bytes
written [] = []
written (write_script script ∷ log) = script
written (_ ∷ log) = written log

-- Every script in the log that is written has the property, and what the file holds whenever it is run.
abbrev pub LogIsSafe : (Bytes → Type 0) → List Effect → Type 0
LogIsSafe P [] = Unit
LogIsSafe P (write_script script ∷ log) = P script × LogIsSafe P log
LogIsSafe P (spawn_script ∷ log) = P (written log) × LogIsSafe P log
LogIsSafe P (_ ∷ log) = LogIsSafe P log

-- A right signature of one of the answers that came in.
abbrev pub SentSigned : Library → List (Env × Event) → Bytes → Type 0
SentSigned lib evs script = (r : Response) × Received evs r × IsSigned lib script r

module _ (lib : Library) (P : Bytes → Type 0) where
  -- Each script of the answer has the property.
  abbrev Allows : Response → Type 0
  Allows r = (script : Bytes) → accepted_script lib r ≡ some script → P script

  run_script-LogIsSafe :
      (files : Files) (r : Response) (log : List Effect)
      → Allows r
      → LogIsSafe P log
      → LogIsSafe P (run_script files (accepted_script lib r) log)
  unfolding run_script
  run_script-LogIsSafe files r log k h = elim (Option-cases (accepted_script lib r)) [
    | inl e ↦ rw (e, run_script) h
    | inr (script, e) ↦ let signed = k script e in rw (e, run_script) (ground (arith, signed))
  ]

  start_update_cache-LogIsSafe :
      (s : Progress) → LogIsSafe P s.log → LogIsSafe P (start_update_cache s).log
  unfolding start_update_cache finish
  start_update_cache-LogIsSafe s h = ground arith

  signal-LogIsSafe :
      (p : ℕ) (x : Signal) (s : Progress)
      → LogIsSafe P s.log
      → LogIsSafe P (aptkit_transaction_signal_cb p x s).log
  unfolding aptkit_transaction_signal_cb on_property finish
  signal-LogIsSafe p x s h = ground arith

  step-LogIsSafe :
      (f : Facts) (e : Env) (v : Event) (s : Progress)
      → ((r : Response) → Brings v r → Allows r)
      → LogIsSafe P s.log
      → LogIsSafe P (step lib f e v s).log
  unfolding step
  step-LogIsSafe f e begins s k h = ground arith
  step-LogIsSafe f e (pulses true is_bar) s k h = ground arith
  step-LogIsSafe f e (provision_complete files r) s k h =
      start_update_cache-LogIsSafe
        (record s { log = run_script files (accepted_script lib r) s.log })
        (run_script-LogIsSafe files r s.log (k r refl) h)
  step-LogIsSafe f e (signalled proxy sig) s k h = signal-LogIsSafe proxy sig s h
  step-LogIsSafe f e _ s k h = ground arith

  run-LogIsSafe :
      (f : Facts) (s : Progress) (evs : List (Env × Event))
      → ((r : Response) → Received evs r → Allows r)
      → LogIsSafe P s.log
      → LogIsSafe P (run lib f s evs).log
  unfolding run
  run-LogIsSafe f s [] k h = h
  run-LogIsSafe f s ((e, v) ∷ evs) k h =
      run-LogIsSafe f (step lib f e v s) evs (λ r w. k r (inr w))
        (step-LogIsSafe f e v s (λ r w. k r (inl w)) h)

-- From the page as it is made, whatever comes in: each script that is written, and what the file holds
-- whenever it is run, is the body of an answer that came in with status 200, and the header of that answer
-- holds a signature of 64 bytes that is right for it under the key in the source.
pub run-init-LogIsSafe :
    (lib : Library) (f : Facts) (evs : List (Env × Event))
    → LogIsSafe (SentSigned lib evs) (run lib f init evs).log
unfolding init
run-init-LogIsSafe lib f evs =
    run-LogIsSafe lib (SentSigned lib evs) f init evs
      (λ r w script h. (r, w, accepted-IsSigned lib r script h)) tt
