-- ===== src/WebServer/Names/Safe.antt =====
-- What `IsSafeSoundName` of chime/src/webd/web_server.cpp keeps out.
use virtualchime.Base.{
  ◌≡◌, ◌≢◌, ◌==◌, sym, bytes_eq_iff, Bool-cases, inl, inr, ap, ◌∙◌, arith, true, false, [], ◌∷◌,
  ◌++◌, Bytes, codes, bytes_eq, contains, contains_bytes, starts_with, append-nil, append_assoc,
}
use virtualchime.WebServer.Names.{is_safe_sound_name, parts, parts_loop}

parts_loop-append :
    (part name : Bytes) → contains b'/' name ≡ false → parts_loop part name ≡ (part ++ name) ∷ []
unfolding parts_loop
parts_loop-append part [] h = ap (λ x. x ∷ []) (sym (append-nil part))
parts_loop-append part (c ∷ name) h =
    let plain : (c == b'/') ≡ false = ground (arith, h) in
    let clear : contains b'/' name ≡ false = ground (arith, h) in
    rw (plain, parts_loop)
      (parts_loop-append (part ++ c ∷ []) name clear
        ∙ ap (λ x. x ∷ []) (append_assoc part (c ∷ []) name))

not_dots : is_safe_sound_name (codes "..") ≢ true
unfolding is_safe_sound_name contains_bytes starts_with
not_dots h = absurd (cc h)

no_slash : (name : Bytes) → is_safe_sound_name name ≡ true → contains b'/' name ≡ false
unfolding is_safe_sound_name
no_slash name h = ground (arith, h)

not_parent : (name : Bytes) → is_safe_sound_name name ≡ true → bytes_eq name (codes "..") ≡ false
not_parent name h = elim (Bool-cases (bytes_eq name (codes ".."))) [
  | inr differs ↦ differs
  | inl e ↦
      let same : name ≡ codes ".." = (bytes_eq_iff name (codes "..")).0 e in
      absurd (not_dots (rw (← same) h))
]

parts_loop-last :
    (part dir name : Bytes)
    → contains b'/' name ≡ false
    → parts_loop part (dir ++ b'/' ∷ name) ≡ parts_loop part dir ++ name ∷ []
unfolding parts_loop
parts_loop-last part [] name h = ap (λ x. part ∷ x) (parts_loop-append [] name h)
parts_loop-last part (c ∷ dir) name h = elim (Bool-cases (c == b'/')) [
  | inl e ↦ rw (e, parts_loop) (ap (λ x. part ∷ x) (parts_loop-last [] dir name h))
  | inr e ↦ rw (e, parts_loop) (parts_loop-last (part ++ c ∷ []) dir name h)
]

-- A name that `IsSafeSoundName` lets through stays in its directory: behind a directory's path
-- and a slash it is one more part of the path, and that part is not "..".
pub is_safe_sound_name-parts :
    (dir name : Bytes)
    → is_safe_sound_name name ≡ true
    → (parts (dir ++ b'/' ∷ name) ≡ parts dir ++ name ∷ []) × (bytes_eq name (codes "..") ≡ false)
unfolding parts
is_safe_sound_name-parts dir name h =
    (parts_loop-last [] dir name (no_slash name h), not_parent name h)
