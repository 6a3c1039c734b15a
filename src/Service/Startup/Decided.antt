-- ===== src/Service/Startup/Decided.antt =====
-- When the startup block plays which notification, and how long it can wait.
use virtualchime.Base.{
  ℕ, ◌+◌, ◌*◌, ◌≤◌, Bool, true, false, ◌≡◌, ◌⊎◌, inl, inl, inr, arith, Option, none, some, leb,
  Option-cases,
}
use virtualchime.ChimeConfig.{ChimeConfig}
use virtualchime.Service.Startup.{Startup, startup_step, startup_unknown, seconds_between}

abbrev begun_by : ℕ → Option ℕ → Bool
begun_by t none = false
begun_by t (some begin) = leb begin t

-- The wait for the wifi state is noted, and began at `t` or before.
pub Waiting : ℕ → Startup → Type 0
Waiting t s = (s.unknown_logged ≡ true) × (begun_by t s.unknown_wifi_begin ≡ true)

-- Nothing is noted yet, or its begin is set.
pub Consistent : ℕ → Startup → Type 0
Consistent t s = (s.unknown_logged ≡ false) ⊎ Waiting t s

pub new-Consistent : (t : ℕ) (s : Startup) → s.unknown_logged ≡ false → Consistent t s
unfolding Consistent
new-Consistent t s h = inl h

seconds_between-late :
    (now begin : ℕ) (n : ℕ) → begin + n * 1000000000 ≤ now → n ≤ seconds_between now begin
seconds_between-late now begin n h = omega arith

-- Ten seconds after the start, a round decides, or the wifi state is unknown and its wait has begun.
pub startup_step-Waiting :
    (c : ChimeConfig) (now begin : ℕ) (known wifi mqtt : Bool) (s : Startup)
    → begin + 10 * 1000000000 ≤ now
    → Consistent now s
    → ((startup_step c now begin known wifi mqtt s).0.played ≡ true)
      ⊎ Waiting now (startup_step c now begin known wifi mqtt s).0
unfolding startup_step startup_unknown Waiting Consistent
startup_step-Waiting c now begin known wifi mqtt s h k =
    let late = seconds_between-late now begin 10 h in ground (arith, late)

-- Thirty seconds into the wait, a round decides.
pub startup_step-over :
    (c : ChimeConfig) (now begin t : ℕ) (known wifi mqtt : Bool) (s : Startup)
    → begin + 10 * 1000000000 ≤ now
    → t + 30 * 1000000000 ≤ now
    → Waiting t s
    → (startup_step c now begin known wifi mqtt s).0.played ≡ true
unfolding startup_step startup_unknown Waiting
startup_step-over c now begin t known wifi mqtt s h h' k =
    let late = seconds_between-late now begin 10 h in
    elim (Option-cases s.unknown_wifi_begin) [
      | inl e ↦ absurd (ground (arith, k.1, e))
      | inr (b, e) ↦
          let over : 30 ≤ seconds_between now b = seconds_between-late now b 30 (ground arith) in
          simp e (ground (arith, late, over))
    ]

-- A wait goes on until a round decides.
pub startup_step_keeps_Waiting :
    (c : ChimeConfig) (now begin t : ℕ) (known wifi mqtt : Bool) (s : Startup)
    → Waiting t s
    → ((startup_step c now begin known wifi mqtt s).0.played ≡ true)
      ⊎ Waiting t (startup_step c now begin known wifi mqtt s).0
unfolding startup_step startup_unknown Waiting
startup_step_keeps_Waiting c now begin t known wifi mqtt s k = ground arith

pub startup_step-Consistent :
    (c : ChimeConfig) (now begin t : ℕ) (known wifi mqtt : Bool) (s : Startup)
    → now ≤ t
    → Consistent t s
    → ((startup_step c now begin known wifi mqtt s).0.played ≡ true)
      ⊎ Consistent t (startup_step c now begin known wifi mqtt s).0
unfolding startup_step startup_unknown Waiting Consistent
startup_step-Consistent c now begin t known wifi mqtt s h k = ground arith
