-- ===== src/WebServer/Selection/Lists.antt =====
-- `HandleGetRingSounds` of chime/src/webd/web_server.cpp.
use virtualchime.Base.{◌≡◌, refl, Option, none, some, Bytes}
use virtualchime.WebServer.Sounds.{Place, ensure_directory_exists}
use virtualchime.WebServer.Selection.{Sounds, ListEnv, list_ensured, handle_get_ring_sounds}

list_ensured-active :
    (env : ListEnv) (sounds : Sounds) (p : Place × Option Bytes)
    → ((list_ensured env sounds p).0).active ≡ sounds.active
unfolding list_ensured
list_ensured-active env sounds (place, some message) = refl
list_ensured-active env sounds (place, none) = refl

pub handle_get_ring_sounds-active :
    (dir : Bytes) (env : ListEnv) (sounds : Sounds)
    → ((handle_get_ring_sounds dir env sounds).0).active ≡ sounds.active
unfolding handle_get_ring_sounds
handle_get_ring_sounds-active dir env sounds =
    list_ensured-active env sounds (ensure_directory_exists dir env.ensure sounds.place)
