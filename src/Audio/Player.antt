-- ===== src/Audio/Player.antt =====
-- `AplayAudioPlayer::Play` of chime/src/audio/aplay_audio_player.cpp: the flag `playing_`, the
-- playback thread, and the commands that the thread runs.
pub mod Flag
use virtualchime.Base.{
  ℕ, suc, Bool, true, false, not, List, [], ◌∷◌, ◌++◌, Option, none, some, if◌then◌else◌, Bytes,
  codes, ℤ, pos, negsuc, leb_ℤ, ltb_ℤ,
}
use virtualchime.Text.{to_string}
use virtualchime.Text.Escape.{escape_shell_double_quotes}
use virtualchime.Audio.{clamp}

-- `kMixerControlCandidates`.
abbrev pub mixer_controls : List Bytes
mixer_controls =
    codes "PCM"
    ∷ codes "Speaker"
    ∷ codes "Master"
    ∷ codes "Digital"
    ∷ codes "Playback"
    ∷ codes "DAC"
    ∷ codes "Headphone"
    ∷ codes "PCM Playback Volume"
    ∷ codes "Digital Playback Volume"
    ∷ []

unfoldable pub amixer_command : ℤ → Bytes → Bytes
unfolding escape_shell_double_quotes to_string
amixer_command volume control =
    codes "amixer -q sset \""
    ++ (escape_shell_double_quotes control
        ++ (codes "\" \"" ++ (to_string volume ++ codes "%\" >/dev/null 2>&1")))

-- `TrySetVolumeWithAmixer`: the commands that are run, and the control that took the volume.
-- `succeeds` tells of each command whether `std::system` returns 0.
unfoldable pub try_controls : (Bytes → Bool) → ℤ → List Bytes → List Bytes × Option Bytes
unfolding amixer_command
try_controls succeeds volume [] = ([], none)
try_controls succeeds volume (control ∷ controls) =
    let command = amixer_command volume control in
    let (commands, result) = try_controls succeeds volume controls in
    if succeeds command then (command ∷ [], some control) else (command ∷ commands, result)

abbrev pub effective_volume : ℤ → ℤ
effective_volume volume_percent = clamp volume_percent (pos 0) (pos 100)

-- The path that is played: the scaled copy where no control took a volume below 100 and the copy
-- could be made.
abbrev playback_path : Bytes → ℤ → Option Bytes → Option Bytes → Bytes
playback_path path volume (some control) scaled = path
playback_path path volume none none = path
playback_path path volume none (some copy) = if ltb_ℤ volume (pos 100) then copy else path

-- The commands of the playback thread, in order.
unfoldable pub playback_commands : (Bytes → Bool) → Option Bytes → Bytes → ℤ → List Bytes
unfolding try_controls escape_shell_double_quotes
playback_commands succeeds scaled path volume_percent =
    let volume = effective_volume volume_percent in
    let (commands, control) = try_controls succeeds volume mixer_controls in
    commands
    ++ (codes "aplay -q \""
        ++ (escape_shell_double_quotes (playback_path path volume control scaled)
            ++ codes "\" 2>/dev/null"))
      ∷ []

-- The thread of `playback_thread_`: none that has to be joined, one that plays, or one that has
-- cleared the flag and has still to exit.
pub data PlaybackThread : Type 0 where
  none_left : PlaybackThread
  running : PlaybackThread
  leaving : PlaybackThread

-- The flag, the calls of `Play` that have set it and are at their checks or behind them, and the
-- thread.
pub record Player : Type 0 where
  pub playing : Bool
  pub checking : ℕ
  pub launching : ℕ
  pub thread : PlaybackThread

abbrev pub new_player : Player
new_player = record { playing = false; checking = 0; launching = 0; thread = none_left }

-- `Play` comes in: `compare_exchange_strong`. A call that finds the flag set returns.
unfoldable pub enter : Player → Player
enter player =
    if player.playing
    then player
    else record player { playing = true; checking = suc player.checking }

-- The checks of a call; `others` are the calls at their checks besides it.
unfoldable pub check : (is_linux file_exists : Bool) → (others : ℕ) → Player → Player
check is_linux file_exists others player =
    if not is_linux
    then record player { playing = false; checking = others }
    else if not file_exists
    then record player { playing = false; checking = others }
    else record player { checking = others; launching = suc player.launching }

-- The start of the thread under the mutex, behind the join of the last one, which has exited.
unfoldable pub launch : (thread_starts : Bool) → (others : ℕ) → Player → Player
launch thread_starts others player =
    if thread_starts
    then record player { launching = others; thread = running }
    else record player { playing = false; launching = others; thread = none_left }

-- `~PlaybackThreadCleanup`, at the end of the thread's function on every path through it.
unfoldable pub thread_ends : Player → Player
thread_ends player = record player { playing = false; thread = leaving }

-- The thread exits, and a join of it returns.
unfoldable pub thread_exits : Player → Player
thread_exits player = record player { thread = none_left }
