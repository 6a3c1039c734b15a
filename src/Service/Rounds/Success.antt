-- ===== src/Service/Rounds/Success.antt =====
-- When a round of `ChimeService::Run` plays the success notification.
use virtualchime.Base.{true, ◌≡◌, Option, none, some, codes, pos}
use virtualchime.ChimeConfig.{ChimeConfig}
use virtualchime.Service.{WifiState}
use virtualchime.Service.Startup.{Startup}

-- A reading of an interface that is there and up, with a carrier.
pub record IsUp (state : WifiState) : Type 0 where
  pub present : state.interface_present ≡ true
  pub up : state.operstate ≡ codes "up"
  pub carries : state.carrier ≡ pos 1

abbrev pub Connected : Option WifiState → Type 0
Connected reading = (state : WifiState) × (reading ≡ some state) × IsUp state

state_of : WifiState → Option WifiState → WifiState
state_of d none = d
state_of d (some state) = state
