-- ===== src/Audio/Player/Flag.antt =====
-- The flag `playing_` of chime/src/audio/aplay_audio_player.cpp under calls of `Play` from any
-- threads.
use virtualchime.Base.{ℕ, suc, ◌+◌, ◌≡◌, refl, Bool, arith, if◌then◌else◌}
use virtualchime.Audio.Player.{
  Player, PlaybackThread, none_left, running, leaving, new_player, enter, check, launch,
  thread_ends, thread_exits,
}

-- What can happen next: a call comes in, a call that has set the flag goes through its checks or
-- starts the thread, or the thread comes to its end or exits.
pub data Happens (p : Player) : Player → Type 0 where
  enters : Happens p (enter p)
  checks :
      (is_linux file_exists : Bool) (others : ℕ)
      → p.checking ≡ suc others
      → Happens p (check is_linux file_exists others p)
  launches :
      (thread_starts : Bool) (others : ℕ)
      → p.launching ≡ suc others
      → p.thread ≡ none_left
      → Happens p (launch thread_starts others p)
  ends : p.thread ≡ running → Happens p (thread_ends p)
  exits : p.thread ≡ leaving → Happens p (thread_exits p)

pub data Reached : Player → Type 0 where
  new : Reached new_player
  next : {player after : Player} → Reached player → Happens player after → Reached after

-- The threads that play.
abbrev pub playing_threads : PlaybackThread → ℕ
playing_threads none_left = 0
playing_threads running = 1
playing_threads leaving = 0

-- The flag is set exactly while one call or one thread holds it.
abbrev pub HeldOnce : Player → Type 0
HeldOnce p = p.checking + p.launching + playing_threads p.thread ≡ (if p.playing then 1 else 0)

Happens-HeldOnce : (p after : Player) → HeldOnce p → Happens p after → HeldOnce after
Happens-HeldOnce p _ h enters = unfold enter in ground arith
Happens-HeldOnce p _ h (checks is_linux file_exists others e) = unfold check in ground arith
Happens-HeldOnce p _ h (launches thread_starts others e t) = unfold launch in ground arith
Happens-HeldOnce p _ h (ends t) = unfold thread_ends in ground arith
Happens-HeldOnce p _ h (exits t) = unfold thread_exits in ground arith

-- However the steps of the calls of `Play` and of the playback thread follow each other: the calls
-- between their `compare_exchange` and their end and the threads that play are one together while
-- the flag is set, and none while it is not.
pub Reached-HeldOnce : (player : Player) → Reached player → HeldOnce player
Reached-HeldOnce _ new = refl
Reached-HeldOnce _ (next {player} {after} r h) =
    Happens-HeldOnce player after (Reached-HeldOnce player r) h
