-- ===== src/ConfigStore/AtomicWrite.antt =====
-- `AtomicWriteFile` of chime/src/webd/config_store.cpp. A file is its content; each system call
-- has its outcome in `WriteEnv`.
pub mod Atomic
use virtualchime.Base.{
  ℕ, Bool, true, false, not, List, [], ◌∷◌, ◌++◌, Option, none, some, if◌then◌else◌, Bytes, take,
  drop,
}
use virtualchime.ConfigStore.Types.{
  StoreError, directory_failed, mkstemp_failed, fchmod_failed, write_failed, fsync_failed,
  close_failed, rename_failed,
}

-- What `write` returns: bytes written, -1 with `EINTR`, or -1 with another `errno`.
pub data WriteOutcome : Type 0 where
  written : ℕ → WriteOutcome
  interrupted : WriteOutcome
  write_error : WriteOutcome

-- `writes` are the outcomes of the first calls of `write`; any later call writes all that is left.
pub record WriteEnv : Type 0 where
  pub directory_ok : Bool
  pub mkstemp_ok : Bool
  pub fchmod_ok : Bool
  pub writes : List WriteOutcome
  pub fsync_ok : Bool
  pub close_ok : Bool
  pub rename_ok : Bool

-- What can be found at a path.
pub data FileState : Type 0 where
  missing : FileState
  unreadable : FileState
  readable : Bytes → FileState

-- The loop over `offset`, on the content that is left: what reaches the temporary file, and
-- whether all was written.
pub write_loop : List WriteOutcome → Bytes → Bytes → Bytes × Bool
write_loop outcomes temp [] = (temp, true)
write_loop [] temp (c ∷ left) = (temp ++ (c ∷ left), true)
write_loop (written n ∷ outcomes) temp (c ∷ left) =
    write_loop outcomes (temp ++ take n (c ∷ left)) (drop n (c ∷ left))
write_loop (interrupted ∷ outcomes) temp (c ∷ left) = write_loop outcomes temp (c ∷ left)
write_loop (write_error ∷ outcomes) temp (c ∷ left) = (temp, false)

-- The steps behind the write loop. On every error the temporary file is removed.
pub commit : WriteEnv → Bytes × Bool → FileState → FileState × Option StoreError
commit env (temp, all_written) target =
    if not all_written
    then (target, some write_failed)
    else if not env.fsync_ok
    then (target, some fsync_failed)
    else if not env.close_ok
    then (target, some close_failed)
    else if not env.rename_ok
    then (target, some rename_failed)
    else (readable temp, none)

-- The target file afterwards, and the error if it returns false.
unfoldable pub atomic_write_file : WriteEnv → Bytes → FileState → FileState × Option StoreError
unfolding write_loop commit
atomic_write_file env content target =
    if not env.directory_ok
    then (target, some directory_failed)
    else if not env.mkstemp_ok
    then (target, some mkstemp_failed)
    else if not env.fchmod_ok
    then (target, some fchmod_failed)
    else commit env (write_loop env.writes [] content) target
