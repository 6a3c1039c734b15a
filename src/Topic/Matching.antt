-- ===== src/Topic/Matching.antt =====
-- Topic matching decides the relation between a filter's levels and a topic's levels.
use virtualchime.Base.{
  ℕ, zero, suc, ◌<◌, Bool, true, false, not, ◌&&◌, List, [], ◌∷◌, ◌++◌, ◌≡◌, ◌↔◌, inl, inr, refl,
  ap, sym, ◌∙◌, arith, Bool-cases, all, contains, split_at-append, split_at-eq-none, length,
  length-append, is_empty, Bytes, codes, bytes_eq, bytes_eq_iff, append-nil,
}
use virtualchime.Text.{join}
use virtualchime.Topic.{split_loop, split_topic, match_levels, topic_matches_filter}

-- What an MQTT filter accepts: `+` stands for one level, `#` at the end for all that follow, and
-- any other level for itself.
pub data Matches : List Bytes → List Bytes → Type 0 where
  done : Matches [] []
  multi : {f : Bytes} (ts : List Bytes) → f ≡ codes "#" → Matches (f ∷ []) ts
  single :
      {f : Bytes} {fs : List Bytes} (t : Bytes) {ts : List Bytes}
      → f ≡ codes "+"
      → Matches fs ts
      → Matches (f ∷ fs) (t ∷ ts)
  same :
      {f t : Bytes} {fs ts : List Bytes}
      → bytes_eq f (codes "#") ≡ false
      → f ≡ t
      → Matches fs ts
      → Matches (f ∷ fs) (t ∷ ts)

abbrev pub is_level : Bytes → Bool
is_level s = not (contains b'/' s)

match_levels_multi :
    (f : Bytes) (fs ts : List Bytes) → f ≡ codes "#" → match_levels (f ∷ fs) ts ≡ is_empty fs
unfolding match_levels
match_levels_multi f fs ts e = rw ((bytes_eq_iff f (codes "#")).1 e, match_levels)

match_levels_end :
    (f : Bytes) (fs : List Bytes)
    → bytes_eq f (codes "#") ≡ false
    → match_levels (f ∷ fs) [] ≡ false
unfolding match_levels
match_levels_end f fs e = rw (e, match_levels)

match_levels_single :
    (f t : Bytes) (fs ts : List Bytes)
    → bytes_eq f (codes "#") ≡ false
    → (not (bytes_eq f (codes "+")) && not (bytes_eq f t)) ≡ false
    → match_levels (f ∷ fs) (t ∷ ts) ≡ match_levels fs ts
unfolding match_levels
match_levels_single f t fs ts e h = ground arith

match_levels_other :
    (f t : Bytes) (fs ts : List Bytes)
    → bytes_eq f (codes "#") ≡ false
    → (not (bytes_eq f (codes "+")) && not (bytes_eq f t)) ≡ true
    → match_levels (f ∷ fs) (t ∷ ts) ≡ false
unfolding match_levels
match_levels_other f t fs ts e h = ground arith

multi_of :
    (f : Bytes) (fs ts : List Bytes) → f ≡ codes "#" → is_empty fs ≡ true → Matches (f ∷ fs) ts
multi_of f [] ts e h = multi ts e
multi_of f (g ∷ fs) ts e h = absurd (cc)

level_of :
    (f t : Bytes) (fs ts : List Bytes)
    → bytes_eq f (codes "#") ≡ false
    → (not (bytes_eq f (codes "+")) && not (bytes_eq f t)) ≡ false
    → Matches fs ts
    → Matches (f ∷ fs) (t ∷ ts)
level_of f t fs ts n h m = elim (Bool-cases (bytes_eq f (codes "+"))) [
  | inl e ↦ single t ((bytes_eq_iff f (codes "+")).0 e) m
  | inr e ↦ same n ((bytes_eq_iff f t).0 (ground arith)) m
]

match_levels-Matches : (fs ts : List Bytes) → match_levels fs ts ≡ true → Matches fs ts
match_levels-Matches [] [] h = done
match_levels-Matches [] (t ∷ ts) h = absurd (unfold match_levels in cc h)
match_levels-Matches (f ∷ fs) [] h = elim (Bool-cases (bytes_eq f (codes "#"))) [
  | inl e ↦
      let e' = (bytes_eq_iff f (codes "#")).0 e in
      multi_of f fs [] e' (sym (match_levels_multi f fs [] e') ∙ h)
  | inr e ↦ absurd (cc (match_levels_end f fs e))
]
match_levels-Matches (f ∷ fs) (t ∷ ts) h = elim (Bool-cases (bytes_eq f (codes "#"))) [
  | inl e ↦
      let e' = (bytes_eq_iff f (codes "#")).0 e in
      multi_of f fs (t ∷ ts) e' (sym (match_levels_multi f fs (t ∷ ts) e') ∙ h)
  | inr e ↦ elim (Bool-cases (not (bytes_eq f (codes "+")) && not (bytes_eq f t))) [
    | inl o ↦ absurd (cc (match_levels_other f t fs ts e o))
    | inr o ↦
        level_of f t fs ts e o
          (match_levels-Matches fs ts (sym (match_levels_single f t fs ts e o) ∙ h))
  ]
]

plus_not_hash : (f : Bytes) → f ≡ codes "+" → bytes_eq f (codes "#") ≡ false
unfolding bytes_eq
plus_not_hash f e = rw e

Matches-match_levels : {fs ts : List Bytes} → Matches fs ts → match_levels fs ts ≡ true
Matches-match_levels done = unfold match_levels in refl
Matches-match_levels (multi {f} ts e) = match_levels_multi f [] ts e
Matches-match_levels (single {f} {fs} t {ts} e m) =
    match_levels_single f t fs ts (plus_not_hash f e) (rw ((bytes_eq_iff f (codes "+")).1 e))
    ∙ Matches-match_levels m
Matches-match_levels (same {f} {t} {fs} {ts} n e m) =
    match_levels_single f t fs ts n (let k = (bytes_eq_iff f t).1 e in ground arith)
    ∙ Matches-match_levels m

split_loop_last : (fuel : ℕ) (s : Bytes) → is_level s ≡ true → split_loop (suc fuel) s ≡ s ∷ []
unfolding split_loop
split_loop_last fuel s h = rw (split_at-eq-none b'/' s (ground arith), split_loop)

split_loop_more :
    (fuel : ℕ) (a b : Bytes)
    → is_level a ≡ true
    → 0 < fuel
    → split_loop (suc fuel) (a ++ (b'/' ∷ b)) ≡ a ∷ split_loop fuel b
unfolding split_loop
split_loop_more zero a b h f = absurd (omega arith)
split_loop_more (suc fuel) a [] h f =
    rw (split_at-append b'/' a [] (ground arith), split_loop)
      (ap (◌∷◌ a) (sym (split_loop_last fuel [] refl)))
split_loop_more (suc fuel) a (c ∷ b) h f =
    rw (split_at-append b'/' a (c ∷ b) (ground arith), split_loop)

split_loop-join :
    (fuel : ℕ) (l : Bytes) (ls : List Bytes)
    → all is_level (l ∷ ls) ≡ true
    → length (join (b'/' ∷ []) (l ∷ ls)) < fuel
    → split_loop fuel (join (b'/' ∷ []) (l ∷ ls)) ≡ l ∷ ls
split_loop-join zero l ls h f = absurd (omega arith)
split_loop-join (suc fuel) l [] h f = rw append-nil (split_loop_last fuel l (ground arith))
split_loop-join (suc fuel) l (k ∷ ls) h f =
    let shorter = length-append l (b'/' ∷ join (b'/' ∷ []) (k ∷ ls)) in
    split_loop_more fuel l (join (b'/' ∷ []) (k ∷ ls)) (ground arith) (omega (arith, shorter))
    ∙ ap (◌∷◌ l) (split_loop-join fuel k ls (ground arith) (omega (arith, shorter)))

-- `SplitTopic` finds the levels of any topic written with slashes between them.
pub split_topic-join :
    (l : Bytes) (ls : List Bytes)
    → all is_level (l ∷ ls) ≡ true
    → split_topic (join (b'/' ∷ []) (l ∷ ls)) ≡ l ∷ ls
unfolding split_topic
split_topic-join l ls h =
    split_loop-join (suc (length (join (b'/' ∷ []) (l ∷ ls)))) l ls h (omega arith)

-- For a filter and a topic given by their levels, none of which holds a slash,
-- `TopicMatchesFilter` returns true exactly when the filter's levels accept the topic's.
pub topic_matches_filter_iff :
    (f : Bytes) (fs : List Bytes) (t : Bytes) (ts : List Bytes)
    → all is_level (f ∷ fs) ≡ true
    → all is_level (t ∷ ts) ≡ true
    → (topic_matches_filter (join (b'/' ∷ []) (f ∷ fs)) (join (b'/' ∷ []) (t ∷ ts)) ≡ true)
      ↔ Matches (f ∷ fs) (t ∷ ts)
unfolding topic_matches_filter
topic_matches_filter_iff f fs t ts h k =
    rw (split_topic-join f fs h, split_topic-join t ts k)
      (match_levels-Matches (f ∷ fs) (t ∷ ts), Matches-match_levels)
