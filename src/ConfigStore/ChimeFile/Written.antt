-- ===== src/ConfigStore/ChimeFile/Written.antt =====
-- The values that `SaveChimeConfig` of chime/src/webd/config_store.cpp wrote are the ones that a
-- load reads.
use virtualchime.Base.{
  Bool, true, false, not, ◌&&◌, List, [], ◌∷◌, ◌≡◌, inl, inr, refl, ap, ◌∙◌, arith, some, is_empty,
  all, all-append, Bytes, codes, contains, Bool-cases, Option-cases, member, bytes_eq, bytes_eq_iff,
}
use virtualchime.Text.{is_blank, trim, get_lines}
use virtualchime.Text.Trim.{StartsClean, EndsClean}
use virtualchime.KvConfig.{starts_with_hash}
use virtualchime.Text.Lines.{is_line, get_lines-unlines, all-is_line-get_lines}
use virtualchime.ConfigStore.Types.{CoreConfig}
use virtualchime.ConfigStore.ChimeFile.{
  extract_config_value, extract_loop, line_value, Replacements, replacements_of, update_lines,
  join_lines, find, replacement, rewrite_lines, missing_lines, assignment,
}
use virtualchime.KvConfig.{key_value}
use virtualchime.ConfigStore.ChimeFile.Extract.{IsKey}
use virtualchime.ConfigStore.ChimeFile.Update.{AreKeys, nil, extract-update_lines}

-- No key and no value holds a newline.
unfoldable pub are_lines : Replacements → Bool
are_lines [] = true
are_lines ((key, value) ∷ rest) = is_line (assignment key value) && are_lines rest

missing_lines-lines :
    (seen : List Bytes) (r : Replacements)
    → are_lines r ≡ true
    → all is_line (missing_lines seen r) ≡ true
unfolding missing_lines are_lines
missing_lines-lines seen [] h = refl
missing_lines-lines seen ((key, value) ∷ r) h = ground (arith, missing_lines-lines seen r)

find-line :
    (key value : Bytes) (r : Replacements)
    → are_lines r ≡ true
    → find key r ≡ some value
    → is_line (assignment key value) ≡ true
unfolding find are_lines
find-line key value [] h f = absurd (cc f)
find-line key value ((k, v) ∷ r) h f = elim (Bool-cases (bytes_eq key k)) [
  | inl e ↦
      let same = (bytes_eq_iff key k).0 e in
      let taken : some v ≡ some value = rw (e, find) at f in
      let value_same : v ≡ value = ground (arith, taken) in
      let first : is_line (assignment k v) ≡ true = ground (arith, h) in
      rw (same, ← value_same) first
  | inr e ↦ find-line key value r (ground (arith, h)) (rw (e, find) at f)
]

replacement-line :
    (r : Replacements) (line key value : Bytes)
    → are_lines r ≡ true
    → replacement r line ≡ some (key, value)
    → is_line (assignment key value) ≡ true
unfolding replacement
replacement-line r line key value h f = elim (Option-cases (key_value line)) [
  | inl e ↦ absurd (ground (arith, e, f))
  | inr ((k, v), e) ↦ elim (Option-cases (find k r)) [
    | inl none_found ↦ absurd (ground (arith, e, none_found, f))
    | inr (w, found) ↦ let line_ok = find-line k w r h found in ground (arith, e, found, f, line_ok)
  ]
]

rewrite_lines-lines :
    (r : Replacements) (lines : List Bytes)
    → are_lines r ≡ true
    → all is_line lines ≡ true
    → all is_line (rewrite_lines r lines).0 ≡ true
unfolding rewrite_lines
rewrite_lines-lines r [] h k = refl
rewrite_lines-lines r (line ∷ lines) h k =
    let rest = rewrite_lines-lines r lines h in
    elim (Option-cases (replacement r line)) [
      | inl e ↦ rw (e, rewrite_lines) (ground (arith, k, rest))
      | inr ((key, value), e) ↦
          rw (e, rewrite_lines) (ground (arith, k, rest, replacement-line r line key value h e))
    ]

update_lines-lines :
    (r : Replacements) (lines : List Bytes)
    → are_lines r ≡ true
    → all is_line lines ≡ true
    → all is_line (update_lines r lines) ≡ true
unfolding update_lines
update_lines-lines r lines h k =
    let (rest, seen) = rewrite_lines r lines in
    rw (all-append is_line rest (missing_lines seen r))
      (ground (arith, rewrite_lines-lines r lines h k, missing_lines-lines seen r h))

extract-written :
    (lines : List Bytes) (k : Bytes)
    → all is_line lines ≡ true
    → extract_config_value (get_lines (join_lines lines)) k ≡ extract_config_value lines k
unfolding extract_config_value extract_loop line_value get_lines
extract-written [] k h = refl
extract-written (line ∷ lines) k h =
    ap (λ ls. extract_config_value ls k) (get_lines-unlines (line ∷ lines) h)

abbrev starts_clean : Bytes → Bool
starts_clean [] = true
starts_clean (c ∷ cs) = not (is_blank c)

abbrev ends_clean : Bytes → Bool
ends_clean [] = true
ends_clean (c ∷ []) = not (is_blank c)
ends_clean (c ∷ d ∷ cs) = ends_clean (d ∷ cs)

to_StartsClean : (s : Bytes) → starts_clean s ≡ true → StartsClean s
to_StartsClean [] h = tt
to_StartsClean (c ∷ cs) h = ground (arith, h)

to_EndsClean : (s : Bytes) → ends_clean s ≡ true → EndsClean s
to_EndsClean [] h = tt
to_EndsClean (c ∷ []) h = ground (arith, h)
to_EndsClean (c ∷ d ∷ cs) h = to_EndsClean (d ∷ cs) h

clean-IsKey :
    (key : Bytes)
    → is_empty key ≡ false
    → contains b'=' key ≡ false
    → starts_clean key ≡ true
    → ends_clean key ≡ true
    → starts_with_hash key ≡ false
    → IsKey key
clean-IsKey key a b c d e = record {
  filled = a;
  no_equals = b;
  trimmed = record { starts = to_StartsClean key c; ends = to_EndsClean key d };
  no_hash = e;
}

-- The keys that are saved are clean, and no two are alike.
replacements_of-AreKeys :
    (c : CoreConfig) (mqtt_password : Bytes) → AreKeys (replacements_of c mqtt_password)
unfolding replacements_of member bytes_eq
replacements_of-AreKeys c mqtt_password =
    AreKeys.cons (clean-IsKey (codes "mqtt_client_id") refl refl refl refl refl) refl (
      AreKeys.cons (clean-IsKey (codes "mqtt_host") refl refl refl refl refl) refl (
        AreKeys.cons (clean-IsKey (codes "mqtt_password") refl refl refl refl refl) refl (
          AreKeys.cons (clean-IsKey (codes "mqtt_port") refl refl refl refl refl) refl (
            AreKeys.cons (clean-IsKey (codes "mqtt_tls_ca_file") refl refl refl refl refl) refl (
              AreKeys.cons (clean-IsKey (codes "mqtt_tls_cert_file") refl refl refl refl refl) refl
                (AreKeys.cons (clean-IsKey (codes "mqtt_tls_enabled") refl refl refl refl refl) refl
                  (AreKeys.cons (clean-IsKey (codes "mqtt_tls_key_file") refl refl refl refl refl)
                    refl
                    (AreKeys.cons
                      (clean-IsKey (codes "mqtt_tls_validate_certificate") refl refl refl refl refl)
                      refl
                      (AreKeys.cons (clean-IsKey (codes "mqtt_topics") refl refl refl refl refl)
                        refl
                        (AreKeys.cons (clean-IsKey (codes "mqtt_username") refl refl refl refl refl)
                          refl
                          (AreKeys.cons
                            (clean-IsKey (codes "notification_failure_sound_path") refl refl refl
                              refl refl)
                            refl
                            (AreKeys.cons
                              (clean-IsKey (codes "notification_success_sound_path") refl refl refl
                                refl refl)
                              refl
                              (AreKeys.cons
                                (clean-IsKey (codes "ring_topic") refl refl refl refl refl) refl
                                (AreKeys.cons
                                  (clean-IsKey (codes "volume_bell") refl refl refl refl refl) refl
                                  (AreKeys.cons
                                    (clean-IsKey (codes "volume_notifications") refl refl refl refl
                                      refl)
                                    refl
                                    (AreKeys.cons
                                      (clean-IsKey (codes "volume_other") refl refl refl refl refl)
                                      refl nil))))))))))))))))

-- If no value holds a newline, a load of the lines that `SaveChimeConfig` writes reads each saved
-- value, without its outer blanks, whatever the file held before.
pub saved_values :
    (c : CoreConfig) (mqtt_password : Bytes) (content : Bytes) (k w : Bytes)
    → are_lines (replacements_of c mqtt_password) ≡ true
    → find k (replacements_of c mqtt_password) ≡ some w
    → extract_config_value
        (get_lines
          (join_lines (update_lines (replacements_of c mqtt_password) (get_lines content))))
        k
      ≡ trim w
saved_values c mqtt_password content k w h f =
    let r = replacements_of c mqtt_password in
    let lines = get_lines content in
    extract-written (update_lines r lines) k
      (update_lines-lines r lines h (all-is_line-get_lines content))
    ∙ extract-update_lines r k w lines (replacements_of-AreKeys c mqtt_password) f
