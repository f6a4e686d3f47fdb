-- ===== src/Update/Provision.antt =====
-- src/pt-update-progress.c: the provisioning script. The device describes itself to the server, and
-- runs what the server answers if the signature of the answer is right.
pub mod Script
pub mod Form
use furios_initial_setup.Common.{
  Bool, List, Option, [], if◌then◌else◌, is_empty, length, none, not, some, ℕ, ◌++◌, ◌==◌, ◌∷◌,
}
use furios_initial_setup.Common.Bytes.{Bytes, bytes}
use furios_initial_setup.Update.State.{
  Effect, Progress, checking, chmod_script, provision_check, provision_post, remove_ntp_timeout,
  spawn_script, write_script,
}
use furios_initial_setup.Update.Transaction.{start_update_cache}

-- What is called and not implemented here: `g_base64_decode`, `g_strstrip` and `g_uri_escape_string`
-- together, and `ed25519_verify` of the copied library, on signature, message and key.
pub record Library : Type 0 where
  pub base64_decode : Bytes → Option Bytes
  pub escape : Bytes → Bytes
  pub ed25519_verify : Bytes → Bytes → Bytes → Bool

-- What the commands print and the version file holds; `none` where that fails.
pub record Facts : Type 0 where
  pub uname : Option Bytes
  pub sdk_version : Option Bytes
  pub build_date : Option Bytes
  pub build_fingerprint : Option Bytes
  pub furios_version : Option Bytes

-- The server's answer. `signature` is the header `X-Furi-Signature`; `body` is `none` where it could not
-- be read.
pub record Response : Type 0 where
  pub http_status : ℕ
  pub has_headers : Bool
  pub signature : Option Bytes
  pub body : Option Bytes

-- Whether the script could be written, and made executable.
pub record Files : Type 0 where
  pub written : Bool
  pub executable : Bool

-- One `g_string_append_printf`, for a fact that is known.
unfoldable pub append_fact : Library → Bytes → Option Bytes → Bytes → Bytes → Bytes
append_fact lib format none ending acc = acc
append_fact lib format (some output) ending acc = acc ++ (format ++ (lib.escape output ++ ending))

-- The request's body.
unfoldable pub post_data : Library → Facts → Bytes
post_data lib f =
    let a = append_fact lib (bytes "uname=") f.uname (bytes "&") [] in
    let b = append_fact lib (bytes "sdk_version=") f.sdk_version (bytes "&") a in
    let c = append_fact lib (bytes "build_date=") f.build_date (bytes "&") b in
    let d = append_fact lib (bytes "build_fingerprint=") f.build_fingerprint (bytes "&") c in
    append_fact lib (bytes "furios_version=") f.furios_version [] d

-- `pt_update_progress_start_provision_check`
unfoldable pub start_provision_check : Library → Facts → Progress → Progress
unfolding remove_ntp_timeout post_data
start_provision_check lib f s =
    let t = remove_ntp_timeout s in
    record t {
      current_transaction = provision_check;
      label = checking;
      log = provision_post (post_data lib f) ∷ t.log;
    }

-- `PROVISION_KEY`, decoded
abbrev pub provision_key : Library → Bytes
provision_key lib =
    elim (lib.base64_decode (bytes "E4jOdnqXFR0mhBf6E+NAOxLvmAgteppg+b7CBJmy3j8=")) [
      | none ↦ []
      | some key ↦ key
    ]

-- A body that could not be read is NULL: `g_bytes_get_data` complains and leaves `length` as it was,
-- which is not set before. What `ed25519_verify` does with NULL and that length is not defined; here it
-- does not return TRUE.
check_signature : Library → Option Bytes → Option Bytes → Option Bytes
check_signature lib none body = none
check_signature lib (some signature) none = none
check_signature lib (some signature) (some body) =
    if not (length signature == 64)
    then none
    else if length body == 0
    then none
    else if lib.ed25519_verify signature body (provision_key lib)
    then some body
    else none

check_header : Library → Option Bytes → Option Bytes → Option Bytes
unfolding check_signature
check_header lib none body = none
check_header lib (some text) body =
    if is_empty text then none else check_signature lib (lib.base64_decode text) body

-- The script to run; `none` is a jump to `fail`.
unfoldable pub accepted_script : Library → Response → Option Bytes
unfolding check_header
accepted_script lib r =
    if r.http_status == 204
    then none
    else if not (r.http_status == 200)
    then none
    else if not r.has_headers
    then none
    else check_header lib r.signature r.body

run_script : Files → Option Bytes → List Effect → List Effect
run_script files none log = log
run_script files (some script) log =
    if not files.written
    then write_script script ∷ log
    else if not files.executable
    then chmod_script ∷ write_script script ∷ log
    else spawn_script ∷ chmod_script ∷ write_script script ∷ log

-- `provision_message_complete_cb`
unfoldable pub provision_message_complete_cb : Library → Files → Response → Progress → Progress
unfolding accepted_script run_script start_update_cache
provision_message_complete_cb lib files r s =
    start_update_cache (record s { log = run_script files (accepted_script lib r) s.log })
