-- ===== src/WebServer/CoreConfig/Posting.antt =====
-- What `HandlePostCoreConfig` of chime/src/webd/web_server.cpp leaves behind.
use virtualchime.Base.{
  ℕ, List, [], ◌∷◌, ◌≡◌, refl, ap, ◌∙◌, Option, none, some, inl, inr, Bool-cases,
}
use virtualchime.Json.{
  JsonValue, null, bool, number, string, array, object, Outcome, ok, failed, out_of_fuel,
}
use virtualchime.Json.Parser.{parse_json}
use virtualchime.ConfigStore.Types.{
  CoreConfigSnapshot, SaveRequest, SaveResult, success, validation_failed, failure, ValidationError,
}
use virtualchime.ConfigStore.{Store, load_core_config}
use virtualchime.ConfigStore.Saving.{Ends, save_core_config-Ends, two_files}
use virtualchime.ApplyManager.{ApplyManager, start_apply, is_active}
use virtualchime.WebServer.{HttpRequest, HttpResponse, respond}
use virtualchime.WebServer.Texts.{core_config_text}
use virtualchime.WebServer.Fields.{
  Payload, read_payload, parse_errors, lacks_sound, save_request_of,
}
use virtualchime.WebServer.CoreConfig.{
  Core, CoreEnv, Handled, get_loaded, started, handle_get_core_config, after_save, save_payload,
  save_with, post_payload, post_value, post_parsed, handle_post_core_config, invalid_response,
}

module _ {D : Type 0} (env : CoreEnv D) (core : Core) where
  -- How a POST can end.
  pub data PostEnds : Handled → Type 0 where
    answered :
        (after : Core) (job : Option ℕ) (response : HttpResponse)
        → response.status ≡ 200
        → handle_get_core_config env.error_text after ≡ response
        → PostEnds (after, job, response)
    refused : (response : HttpResponse) → response.status ≡ 400 → PostEnds (core, none, response)
    not_saved :
        (store : Store) (response : HttpResponse)
        → response.status ≡ 500
        → PostEnds (record core { store = store }, none, response)

  get_saved :
      (store : Store) (snapshot : CoreConfigSnapshot) (manager : ApplyManager)
      → load_core_config store ≡ success snapshot
      → handle_get_core_config env.error_text (record { store = store; manager = manager })
        ≡ respond 200 (core_config_text snapshot manager.status)
  unfolding handle_get_core_config
  get_saved store snapshot manager h =
      ap (λ (x : SaveResult). get_loaded env.error_text manager.status x) h
      ∙ (unfold get_loaded in refl)

  started-PostEnds :
      (store : Store) (snapshot : CoreConfigSnapshot) (m : ApplyManager) (job : Option ℕ)
      → load_core_config store ≡ success snapshot
      → PostEnds (started store snapshot (m, m.status, job))
  unfolding started
  started-PostEnds store snapshot m job h =
      answered (record { store = store; manager = m }) job
        (respond 200 (core_config_text snapshot m.status)) refl (get_saved store snapshot m h)

  start_apply-PostEnds :
      (store : Store) (snapshot : CoreConfigSnapshot)
      → load_core_config store ≡ success snapshot
      → PostEnds (started store snapshot (start_apply env.now core.manager))
  unfolding start_apply
  start_apply-PostEnds store snapshot h = elim (Bool-cases (is_active core.manager.status.state)) [
    | inl e ↦ rw (e, start_apply) (started-PostEnds store snapshot core.manager none h)
    | inr e ↦ rw (e, start_apply) (started-PostEnds store snapshot _ _ h)
  ]

  after_save-PostEnds :
      {request : SaveRequest} {p : Store × SaveResult}
      → Ends env.save_env request core.store p
      → PostEnds (after_save env core p)
  unfolding after_save invalid_response
  after_save-PostEnds (Ends.saved snapshot wpa chime valid loads) =
      start_apply-PostEnds (two_files chime wpa) snapshot loads
  after_save-PostEnds (Ends.invalid errors e bad) = refused (invalid_response errors) refl
  after_save-PostEnds (Ends.untouched error) = not_saved core.store _ refl
  after_save-PostEnds (Ends.half_saved wpa error) = not_saved _ _ refl
  after_save-PostEnds (Ends.not_shown wpa chime error valid closed) = not_saved _ _ refl

  save_payload-PostEnds :
      (payload : Payload) (existing : Option CoreConfigSnapshot)
      → PostEnds (save_payload env core payload existing)
  unfolding save_payload
  save_payload-PostEnds payload existing =
      after_save-PostEnds
        (save_core_config-Ends (save_request_of payload existing) core.store env.save_env)

  save_with-PostEnds :
      (payload : Payload) (loaded : SaveResult) → PostEnds (save_with env core payload loaded)
  unfolding save_with
  save_with-PostEnds payload (success snapshot) = save_payload-PostEnds payload (some snapshot)
  save_with-PostEnds payload (validation_failed errors) = not_saved core.store _ refl
  save_with-PostEnds payload (failure error) = not_saved core.store _ refl

  post_payload-PostEnds :
      (payload : Payload) (errors : List ValidationError)
      → PostEnds (post_payload env core payload errors)
  unfolding post_payload invalid_response
  post_payload-PostEnds payload (e ∷ errors) = refused _ refl
  post_payload-PostEnds payload [] = elim (Bool-cases (lacks_sound payload)) [
    | inl e ↦ simp e (save_with-PostEnds payload (load_core_config core.store))
    | inr e ↦ simp e (save_payload-PostEnds payload none)
  ]

  post_value-PostEnds : (value : JsonValue D) → PostEnds (post_value env core value)
  unfolding post_value
  post_value-PostEnds (object fields) =
      post_payload-PostEnds (read_payload env.exact_int (object fields))
        (parse_errors (read_payload env.exact_int (object fields)))
  post_value-PostEnds null = refused _ refl
  post_value-PostEnds (bool b) = refused _ refl
  post_value-PostEnds (number d) = refused _ refl
  post_value-PostEnds (string s) = refused _ refl
  post_value-PostEnds (array items) = refused _ refl

  post_parsed-PostEnds : (parsed : Outcome (JsonValue D)) → PostEnds (post_parsed env core parsed)
  unfolding post_parsed
  post_parsed-PostEnds (ok value rest) = post_value-PostEnds value
  post_parsed-PostEnds (failed error) = refused _ refl
  post_parsed-PostEnds out_of_fuel = refused _ refl

  -- Whatever is posted, and whatever fails: an answer 200 is exactly what a GET answers that finds
  -- the state right behind the POST, before the job's thread has taken a step; an answer 400 leaves
  -- the files and the apply job alone and starts none; and the only other answer is 500, which
  -- leaves the apply job alone and starts none.
  pub handle_post_core_config-PostEnds :
      (request : HttpRequest) → PostEnds (handle_post_core_config env core request)
  unfolding handle_post_core_config
  handle_post_core_config-PostEnds request =
      post_parsed-PostEnds (parse_json env.strtod request.body)
