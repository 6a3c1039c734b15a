-- ===== src/WebServer/Ui/Inside.antt =====
-- Where `TryServeExternalUi` of chime/src/webd/web_server.cpp reads.
use virtualchime.Base.{
  ◌≡◌, refl, arith, true, ◌||◌, not, Bytes, bytes_eq, is_empty, Bool-cases, inl, inr,
}
use virtualchime.WebServer.{HttpRequest}
use virtualchime.WebServer.Names.{is_safe_relative_path, relative_path, parts}
use virtualchime.WebServer.Ui.{UiDir, index, serve_relative, try_serve_external_ui}

index-safe : is_safe_relative_path index ≡ true
unfolding is_safe_relative_path parts bytes_eq
index-safe = refl

module _ (ui other : UiDir)
    (same : (path : Bytes)
      → is_safe_relative_path path ≡ true
      → ui.file path ≡ other.file path) where
  -- Two directories with the same name and the same files at the paths without a part ".." give
  -- the same answer to each request: no request reads a file outside of the directory.
  pub try_serve_external_ui-same :
      (request : HttpRequest)
      → ui.dir ≡ other.dir
      → ui.is_directory ≡ other.is_directory
      → try_serve_external_ui ui request ≡ try_serve_external_ui other request
  unfolding try_serve_external_ui serve_relative
  try_serve_external_ui-same request d i =
      let relative = relative_path request.path in
      elim (Bool-cases (is_empty relative || not (is_safe_relative_path relative))) [
        | inl e ↦ rw (d, i, same index index-safe, e) refl
        | inr e ↦
            let safe : is_safe_relative_path relative ≡ true = ground (arith, e) in
            rw (d, i, same index index-safe, e, same relative safe) refl
      ]
