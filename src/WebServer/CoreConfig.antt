-- ===== src/WebServer/CoreConfig.antt =====
-- `HandleGetCoreConfig` and `HandlePostCoreConfig` of chime/src/webd/web_server.cpp, over the
-- configuration store and the apply manager.
pub mod Document
pub mod PostBack
pub mod PostKept
pub mod Posting
use virtualchime.Base.{ℕ, Bool, List, [], ◌∷◌, Option, none, some, if◌then◌else◌, Bytes, codes, ℤ}
use virtualchime.Json.{
  JsonValue, null, bool, number, string, array, object, Outcome, ok, failed, out_of_fuel,
  json_string,
}
use virtualchime.Json.Parser.{parse_json}
use virtualchime.ConfigStore.Types.{
  ValidationError, CoreConfigSnapshot, SaveRequest, StoreError, SaveResult, success,
  validation_failed, failure,
}
use virtualchime.ConfigStore.{Store, SaveEnv, load_core_config, save_core_config}
use virtualchime.ApplyManager.{ApplyManager, ApplyStatus, current_status, start_apply}
use virtualchime.WebServer.{
  HttpRequest, HttpResponse, respond, message_body, object_text, text_field,
}
use virtualchime.WebServer.Texts.{core_config_text, serialize_validation_errors}
use virtualchime.WebServer.Fields.{
  Payload, read_payload, parse_errors, lacks_sound, save_request_of,
}

-- The two objects that the handlers change.
pub record Core : Type 0 where
  pub store : Store
  pub manager : ApplyManager

-- What comes from outside: the texts of the store's errors, the outcomes of its writes, the time,
-- and the C library's doubles.
pub record CoreEnv (D : Type 0) : Type 0 where
  pub error_text : StoreError → Bytes
  pub save_env : SaveEnv
  pub now : Bytes
  pub strtod : Bytes → Option D
  pub exact_int : D → Option ℤ

-- The state, the job whose thread was started, and the response.
abbrev pub Handled : Type 0
Handled = Core × Option ℕ × HttpResponse

abbrev pub load_failed : Bytes → HttpResponse
load_failed message = respond 500 (message_body (codes "load_failed") message)

abbrev pub save_failed : Bytes → HttpResponse
save_failed message = respond 500 (message_body (codes "save_failed") message)

pub invalid_response : List ValidationError → HttpResponse
unfolding serialize_validation_errors json_string
invalid_response errors = respond 400 (
    object_text (
      text_field (codes "error") (codes "validation_failed")
      ∷ (codes "validation_errors", serialize_validation_errors errors)
      ∷ []))

abbrev get_loaded : (StoreError → Bytes) → ApplyStatus → SaveResult → HttpResponse
unfolding core_config_text
get_loaded error_text apply (success snapshot) = respond 200 (core_config_text snapshot apply)
get_loaded error_text apply (validation_failed errors) = load_failed []
get_loaded error_text apply (failure error) = load_failed (error_text error)

-- `HandleGetCoreConfig`.
unfoldable pub handle_get_core_config : (StoreError → Bytes) → Core → HttpResponse
unfolding get_loaded load_core_config
handle_get_core_config error_text core =
    get_loaded error_text (current_status core.manager) (load_core_config core.store)

abbrev started : Store → CoreConfigSnapshot → ApplyManager × ApplyStatus × Option ℕ → Handled
unfolding core_config_text
started store snapshot (manager, apply, job) = (
  record { store = store; manager = manager },
  job,
  respond 200 (core_config_text snapshot apply),
)

module _ {D : Type 0} (env : CoreEnv D) where
  -- Behind `SaveCoreConfig`.
  unfoldable pub after_save : Core → Store × SaveResult → Handled
  unfolding started start_apply invalid_response
  after_save core (store, validation_failed errors) =
      (record core { store = store }, none, invalid_response errors)
  after_save core (store, failure error) =
      (record core { store = store }, none, save_failed (env.error_text error))
  after_save core (store, success snapshot) =
      started store snapshot (start_apply env.now core.manager)

  unfoldable pub save_payload : Core → Payload → Option CoreConfigSnapshot → Handled
  unfolding after_save save_core_config save_request_of
  save_payload core payload existing =
      after_save core (save_core_config env.save_env (save_request_of payload existing) core.store)

  unfoldable pub save_with : Core → Payload → SaveResult → Handled
  unfolding save_payload
  save_with core payload (success snapshot) = save_payload core payload (some snapshot)
  save_with core payload (validation_failed errors) = (core, none, save_failed [])
  save_with core payload (failure error) = (core, none, save_failed (env.error_text error))

  -- Behind the readers.
  unfoldable pub post_payload : Core → Payload → List ValidationError → Handled
  unfolding save_with load_core_config invalid_response
  post_payload core payload (e ∷ errors) = (core, none, invalid_response (e ∷ errors))
  post_payload core payload [] =
      if lacks_sound payload
      then save_with core payload (load_core_config core.store)
      else save_payload core payload none

  abbrev pub invalid_payload : HttpResponse
  invalid_payload =
      respond 400 (message_body (codes "invalid_payload") (codes "payload must be an object"))

  unfoldable pub post_value : Core → JsonValue D → Handled
  unfolding post_payload read_payload
  post_value core (object fields) =
      (let payload = read_payload env.exact_int (object fields) in
        post_payload core payload (parse_errors payload))
  post_value core null = (core, none, invalid_payload)
  post_value core (bool b) = (core, none, invalid_payload)
  post_value core (number d) = (core, none, invalid_payload)
  post_value core (string s) = (core, none, invalid_payload)
  post_value core (array items) = (core, none, invalid_payload)

  -- A body is never too long for the parser, so the last clause is never taken.
  unfoldable pub post_parsed : Core → Outcome (JsonValue D) → Handled
  unfolding post_value
  post_parsed core (ok value rest) = post_value core value
  post_parsed core (failed error) =
      (core, none, respond 400 (message_body (codes "invalid_json") error))
  post_parsed core out_of_fuel = (core, none, respond 400 (message_body (codes "invalid_json") []))

  -- `HandlePostCoreConfig`.
  unfoldable pub handle_post_core_config : Core → HttpRequest → Handled
  unfolding post_parsed parse_json
  handle_post_core_config core request = post_parsed core (parse_json env.strtod request.body)
