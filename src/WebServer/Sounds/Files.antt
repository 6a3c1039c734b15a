-- ===== src/WebServer/Sounds/Files.antt =====
-- The files of a directory, as the handlers of chime/src/webd/web_server.cpp change them.
use virtualchime.Base.{
  ◌-◌, Bool, true, false, [], ◌∷◌, ◌++◌, ◌≡◌, inl, inr, refl, sym, ap, ◌∙◌, arith, Option, none,
  some, Bytes, codes, bytes_eq, bytes_eq_iff, bytes_eq_refl, Bool-cases, length, length-append,
  drop,
}
use virtualchime.Text.{to_lower, tolower}
use virtualchime.WebServer.Names.{is_safe_sound_name, last_bytes}
use virtualchime.WebServer.Sounds.{
  Entry, regular, Files, lookup, store_file, remove_file, try_remove, temp_name, FileEnv,
  write_and_move,
}

eq_trans : (a b c : Bytes) → bytes_eq a b ≡ true → bytes_eq c b ≡ false → bytes_eq c a ≡ false
eq_trans a b c h k = rw ((bytes_eq_iff a b).0 h) k

pub lookup-store_file :
    (name : Bytes) (entry : Entry) (files : Files)
    → lookup name (store_file name entry files) ≡ some entry
unfolding lookup store_file
lookup-store_file name entry [] = rw (bytes_eq_refl name) refl
lookup-store_file name entry ((n, e) ∷ files) = elim (Bool-cases (bytes_eq name n)) [
  | inl h ↦ simp h refl
  | inr h ↦ simp (h, lookup-store_file name entry files) refl
]

pub lookup-store_file-other :
    (other name : Bytes) (entry : Entry) (files : Files)
    → bytes_eq other name ≡ false
    → lookup other (store_file name entry files) ≡ lookup other files
unfolding lookup store_file
lookup-store_file-other other name entry [] k = simp k refl
lookup-store_file-other other name entry ((n, e) ∷ files) k = elim (Bool-cases (bytes_eq name n)) [
  | inl h ↦
      let different : bytes_eq other n ≡ false = rw (← (bytes_eq_iff name n).0 h) k in
      simp (h, different) refl
  | inr h ↦ simp (h, lookup-store_file-other other name entry files k) refl
]

pub lookup-remove_file-other :
    (other name : Bytes) (files : Files)
    → bytes_eq other name ≡ false
    → lookup other (remove_file name files) ≡ lookup other files
unfolding lookup remove_file
lookup-remove_file-other other name [] k = refl
lookup-remove_file-other other name ((n, e) ∷ files) k = elim (Bool-cases (bytes_eq name n)) [
  | inl h ↦
      let different : bytes_eq other n ≡ false = rw (← (bytes_eq_iff name n).0 h) k in
      simp (h, different, lookup-remove_file-other other name files k) refl
  | inr h ↦ simp (h, lookup-remove_file-other other name files k) refl
]

drop-append : (a b : Bytes) → drop (length a) (a ++ b) ≡ b
drop-append [] b = refl
drop-append (x ∷ a) b = drop-append a b

to_lower-append : (a b : Bytes) → to_lower (a ++ b) ≡ to_lower a ++ to_lower b
unfolding to_lower
to_lower-append [] b = refl
to_lower-append (x ∷ a) b = ap (λ t. tolower x ∷ t) (to_lower-append a b)

last_bytes-temp_name : (name : Bytes) → last_bytes 4 (to_lower (temp_name name)) ≡ codes ".tmp"
unfolding to_lower
last_bytes-temp_name name =
    let low = to_lower name in
    let size : length (low ++ codes ".tmp") - 4 ≡ length low =
      omega (arith, length-append low (codes ".tmp")) in
    ap (last_bytes 4) (to_lower-append name (codes ".tmp"))
    ∙ ap (λ n. drop n (low ++ codes ".tmp")) size
    ∙ drop-append low (codes ".tmp")

pub safe-wav :
    (name : Bytes)
    → is_safe_sound_name name ≡ true
    → bytes_eq (last_bytes 4 (to_lower name)) (codes ".wav") ≡ true
unfolding is_safe_sound_name
safe-wav name h = ground (arith, h)

-- A temporary file has no name of a sound.
pub safe-not_temp :
    (name of : Bytes) → is_safe_sound_name name ≡ true → bytes_eq name (temp_name of) ≡ false
unfolding bytes_eq
safe-not_temp name of h = elim (Bool-cases (bytes_eq name (temp_name of))) [
  | inr differs ↦ differs
  | inl e ↦
      let same : name ≡ temp_name of = (bytes_eq_iff name (temp_name of)).0 e in
      let wav : bytes_eq (codes ".tmp") (codes ".wav") ≡ true =
        ap (λ x. bytes_eq x (codes ".wav")) (sym (last_bytes-temp_name of))
        ∙ ap (λ x. bytes_eq (last_bytes 4 (to_lower x)) (codes ".wav")) (sym same)
        ∙ safe-wav name h in
      absurd (cc wav)
]

-- How `write_and_move` can end.
pub data Written (name content : Bytes) (files : Files) : Files × Option Bytes → Type 0 where
  moved :
      (after : Files)
      → lookup name after ≡ some (regular content)
      → ((other : Bytes)
          → bytes_eq other name ≡ false
          → bytes_eq other (temp_name name) ≡ false
          → lookup other after ≡ lookup other files)
      → Written name content files (after, none)
  kept :
      (after : Files) (message : Bytes)
      → ((other : Bytes)
          → bytes_eq other (temp_name name) ≡ false
          → lookup other after ≡ lookup other files)
      → Written name content files (after, some message)

lookup-try_remove :
    (other name : Bytes) (removes : Bool) (files : Files)
    → bytes_eq other name ≡ false
    → lookup other (try_remove removes name files) ≡ lookup other files
unfolding try_remove
lookup-try_remove other name true files k = lookup-remove_file-other other name files k
lookup-try_remove other name false files k = refl

lookup-temporary :
    (env : FileEnv) (other name content : Bytes) (files : Files)
    → bytes_eq other (temp_name name) ≡ false
    → lookup other (
        try_remove env.remove_ok
          (temp_name name)
          (store_file (temp_name name) (regular content) files))
      ≡ lookup other files
lookup-temporary env other name content files k =
    lookup-try_remove other (temp_name name) env.remove_ok
      (store_file (temp_name name) (regular content) files) k
    ∙ lookup-store_file-other other (temp_name name) (regular content) files k

pub write_and_move-Written :
    (env : FileEnv) (name content : Bytes) (files : Files)
    → Written name content files (write_and_move env name content files)
unfolding write_and_move
write_and_move-Written env name content files = elim (Bool-cases env.open_ok) [
  | inr e ↦ simp e (kept files _ (λ other k. refl))
  | inl e ↦ elim (Bool-cases env.write_ok) [
    | inr f ↦
        simp (e, f) (kept _ _ (λ other k. lookup-temporary env other name env.partial files k))
    | inl f ↦ elim (Bool-cases env.rename_ok) [
      | inr g ↦
          simp (e, f, g) (kept _ _ (λ other k. lookup-temporary env other name content files k))
      | inl g ↦
          simp (e, f, g)
            (moved _ (lookup-store_file name (regular content) (remove_file (temp_name name) files))
              (λ other k l.
                lookup-store_file-other other name (regular content)
                  (remove_file (temp_name name) files) k
                ∙ lookup-remove_file-other other (temp_name name) files l))
    ]
  ]
]
