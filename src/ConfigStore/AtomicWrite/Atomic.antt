-- ===== src/ConfigStore/AtomicWrite/Atomic.antt =====
-- A write replaces the whole file or leaves it alone, however the system calls turn out.
use virtualchime.Base.{
  true, List, [], ◌∷◌, ◌++◌, ◌≡◌, ◌≢◌, ◌⊎◌, refl, ◌∙◌, ap, arith, none, Bytes, take, drop,
  append_assoc, append-nil, take-append-drop,
}
use virtualchime.ConfigStore.AtomicWrite.{
  WriteOutcome, written, interrupted, write_error, WriteEnv, FileState, readable, write_loop,
  commit, atomic_write_file,
}

-- If the loop ends well the temporary file holds all that was to be written, whatever short or
-- interrupted writes came before.
write_loop_all :
    (outcomes : List WriteOutcome) (temp left : Bytes)
    → (write_loop outcomes temp left).1 ≡ true
    → (write_loop outcomes temp left).0 ≡ temp ++ left
unfolding write_loop
write_loop_all [] temp [] h = rw append-nil
write_loop_all (o ∷ os) temp [] h = rw append-nil
write_loop_all [] temp (c ∷ left) h = refl
write_loop_all (written n ∷ os) temp (c ∷ left) h =
    write_loop_all os (temp ++ take n (c ∷ left)) (drop n (c ∷ left)) h
    ∙ append_assoc temp (take n (c ∷ left)) (drop n (c ∷ left))
    ∙ ap (◌++◌ temp) (take-append-drop n (c ∷ left))
write_loop_all (interrupted ∷ os) temp (c ∷ left) h = write_loop_all os temp (c ∷ left) h
write_loop_all (write_error ∷ os) temp (c ∷ left) h = absurd (cc h)

-- Whatever the system calls return, either the file is as it was and an error is returned, or it
-- holds exactly the new content and no error is returned.
pub atomic_write_file_atomic :
    (env : WriteEnv) (content : Bytes) (target : FileState)
    → ((atomic_write_file env content target).0 ≡ target)
        × ((atomic_write_file env content target).1 ≢ none)
      ⊎ ((atomic_write_file env content target).0 ≡ readable content)
        × ((atomic_write_file env content target).1 ≡ none)
unfolding atomic_write_file commit
atomic_write_file_atomic env content target = ground (arith, write_loop_all env.writes [] content)
