-- ===== src/WebServer/Route/Table.antt =====
-- What `Route` of chime/src/webd/web_server.cpp lets a request change.
use virtualchime.Base.{◌≡◌, refl, true, false, none, codes, bytes_eq, bytes_eq_iff}
use virtualchime.WebServer.{HttpRequest}
use virtualchime.WebServer.Selection.Lists.{handle_get_ring_sounds-active}
use virtualchime.WebServer.Route.{
  Server, ServerEnv, Routed, is_get, dispatch, Endpoint, route, endpoint_of, core_config, wifi_scan,
  system_version, mqtt_topics, ring_sounds, select_sound, upload_sound, reserved, page,
}

-- The configuration, the apply job and the active sound are as before, and no job is started.
pub record ReadOnly (server : Server) (r : Routed) : Type 0 where
  pub core : r.0.core ≡ server.core
  pub active : r.0.sounds.active ≡ server.sounds.active
  pub job : r.1 ≡ none

module _ {D : Type 0} (env : ServerEnv D) (server : Server) (request : HttpRequest) where
  dispatch-ReadOnly :
      (e : Endpoint) → is_get request ≡ true → ReadOnly server (dispatch env server request e)
  unfolding dispatch is_get bytes_eq
  dispatch-ReadOnly core_config g = simp g record { core = refl; active = refl; job = refl }
  dispatch-ReadOnly wifi_scan g = simp g record { core = refl; active = refl; job = refl }
  dispatch-ReadOnly system_version g = simp g record { core = refl; active = refl; job = refl }
  dispatch-ReadOnly mqtt_topics g = simp g record { core = refl; active = refl; job = refl }
  dispatch-ReadOnly ring_sounds g = simp g record {
    core = refl;
    active = handle_get_ring_sounds-active env.ring_sounds_dir env.list server.sounds;
    job = refl;
  }
  dispatch-ReadOnly select_sound g =
      let get : request.method ≡ codes "GET" = (bytes_eq_iff request.method (codes "GET")).0 g in
      let other : bytes_eq request.method (codes "POST") ≡ false = rw get refl in
      simp other record { core = refl; active = refl; job = refl }
  dispatch-ReadOnly upload_sound g =
      let get : request.method ≡ codes "GET" = (bytes_eq_iff request.method (codes "GET")).0 g in
      let other : bytes_eq request.method (codes "PUT") ≡ false = rw get refl in
      simp other record { core = refl; active = refl; job = refl }
  dispatch-ReadOnly reserved g = record { core = refl; active = refl; job = refl }
  dispatch-ReadOnly page g = record { core = refl; active = refl; job = refl }

  -- A GET request, to any path and whatever fails, changes neither the configuration files nor the
  -- apply job nor the active sound, and starts no job.
  pub route-ReadOnly : is_get request ≡ true → ReadOnly server (route env server request)
  unfolding route
  route-ReadOnly g = dispatch-ReadOnly (endpoint_of request.path) g
