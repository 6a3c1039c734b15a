-- ===== src/Observed/Invariant.antt =====
-- The list and the set of observed topics hold the same topics, each once, and at most 256.
use virtualchime.Base.{
  ◌≤◌, true, false, ◌||◌, List, [], ◌∷◌, ◌++◌, ◌≡◌, inl, inr, refl, sym, ◌∙◌, arith, Bool-cases,
  Option, none, some, ltb, length, is_empty, Bytes, bytes_eq_iff, bytes_eq_refl, member, erase,
  nodup, member-append, member-erase, nodup-concat,
}
use virtualchime.Text.{trim, get_lines}
use virtualchime.Observed.{
  Observed, initial, max_observed_topics, evict, load_loop, load_observed_topics, TopicFiles,
  PersistEnv, inserted, insert_topic, loaded_state, record_loaded, record_observed_topic,
}

-- The vector and the set agree.
pub record Agrees (topics topics_set : List Bytes) : Type 0 where
  pub once : nodup topics ≡ true
  pub same : (x : Bytes) → member x topics_set ≡ member x topics

pub record Inv (s : Observed) : Type 0 where
  pub agrees : Agrees s.topics s.topics_set
  pub capped : length s.topics ≤ max_observed_topics

pub initial-Inv : Inv initial
unfolding member nodup
initial-Inv = record { agrees = record { once = refl; same = λ x. refl }; capped = omega arith }

pub Agrees-empty : Agrees [] []
unfolding member nodup
Agrees-empty = record { once = refl; same = λ x. refl }

same_tail :
    (t x : Bytes) (ts topics_set : List Bytes)
    → nodup (t ∷ ts) ≡ true
    → member x topics_set ≡ member x (t ∷ ts)
    → member x (erase t topics_set) ≡ member x ts
unfolding nodup
same_tail t x ts topics_set h e = ground (arith, member-erase x t topics_set, bytes_eq_iff x t)

evict-Agrees :
    (ts topics_set : List Bytes)
    → Agrees ts topics_set
    → Agrees (evict ts topics_set).0 (evict ts topics_set).1
unfolding evict
evict-Agrees [] topics_set h = h
evict-Agrees (t ∷ ts) topics_set h = elim (Bool-cases (ltb max_observed_topics (length (t ∷ ts)))) [
  | inl e ↦
      rw (e, evict)
        (evict-Agrees ts (erase t topics_set) (record {
          once = unfold nodup in ground (arith, h.once);
          same = λ x. same_tail t x ts topics_set h.once (h.same x);
        }))
  | inr e ↦ rw (e, evict) h
]

evict-capped : (ts topics_set : List Bytes) → length (evict ts topics_set).0 ≤ max_observed_topics
unfolding evict
evict-capped [] topics_set = omega arith
evict-capped (t ∷ ts) topics_set = ground (arith, evict-capped ts (erase t topics_set))

-- A topic that is in neither container goes into both.
pub Agrees-insert :
    (t : Bytes) (ts topics_set : List Bytes)
    → Agrees ts topics_set
    → member t topics_set ≡ false
    → Agrees (ts ++ t ∷ []) (t ∷ topics_set)
unfolding member
Agrees-insert t ts topics_set h new = record {
  once = nodup-concat ts t h.once (sym (h.same t) ∙ new);
  same = λ x. ground (arith, member-append x ts (t ∷ []), h.same x);
}

load_loop-Agrees :
    (lines ts topics_set : List Bytes)
    → Agrees ts topics_set
    → Agrees (load_loop lines ts topics_set).0 (load_loop lines ts topics_set).1
unfolding load_loop
load_loop-Agrees [] ts topics_set h = h
load_loop-Agrees (line ∷ lines) ts topics_set h =
    elim (Bool-cases (is_empty (trim line) || member (trim line) topics_set)) [
      | inl e ↦ rw (e, load_loop) (load_loop-Agrees lines ts topics_set h)
      | inr e ↦
          rw (e, load_loop)
            (load_loop-Agrees lines (ts ++ trim line ∷ []) (trim line ∷ topics_set)
              (Agrees-insert (trim line) ts topics_set h (ground arith)))
    ]

-- Whatever the file holds, loading it gives a consistent state.
load_observed_topics-Inv : (content : Option Bytes) → Inv (load_observed_topics content)
unfolding load_observed_topics
load_observed_topics-Inv none = record { agrees = Agrees-empty; capped = omega arith }
load_observed_topics-Inv (some c) =
    let (ts, topics_set) = load_loop (get_lines c) [] [] in
    record {
      agrees = evict-Agrees ts topics_set (load_loop-Agrees (get_lines c) [] [] Agrees-empty);
      capped = evict-capped ts topics_set;
    }

loaded_state-Inv : (content : Option Bytes) (s : Observed) → Inv s → Inv (loaded_state content s)
loaded_state-Inv content s h = elim (Bool-cases s.loaded) [
  | inl e ↦ simp e h
  | inr e ↦ simp e (load_observed_topics-Inv content)
]

inserted-Inv :
    (t : Bytes) (s : Observed) → Inv s → member t s.topics_set ≡ false → Inv (inserted t s)
unfolding inserted
inserted-Inv t s h new = record {
  agrees =
      evict-Agrees (s.topics ++ t ∷ []) (t ∷ s.topics_set)
        (Agrees-insert t s.topics s.topics_set h.agrees new);
  capped = evict-capped (s.topics ++ t ∷ []) (t ∷ s.topics_set);
}

record_loaded-Inv :
    (env : PersistEnv) (t : Bytes) (s : Observed) (files : TopicFiles)
    → Inv s
    → Inv (record_loaded env s files (insert_topic t s)).0
unfolding insert_topic
record_loaded-Inv env t s files h = elim (Bool-cases (member t s.topics_set)) [
  | inl e ↦ rw (e, insert_topic) h
  | inr e ↦ rw (e, insert_topic) (inserted-Inv t s h e)
]

-- Recording any topic, with any outcome of the file system, keeps the invariant: the vector and
-- the set hold the same topics, none twice, and at most 256 of them.
pub record_observed_topic-Inv :
    (env : PersistEnv) (t : Bytes) (s : Observed) (files : TopicFiles)
    → Inv s
    → Inv (record_observed_topic env t s files).0
unfolding record_observed_topic
record_observed_topic-Inv env t s files h = elim (Bool-cases (is_empty t)) [
  | inl e ↦ rw e h
  | inr e ↦
      rw e (
        record_loaded-Inv env t (loaded_state files.main s) files (loaded_state-Inv files.main s h))
]

evict_keeps_last :
    (ts : List Bytes) (t : Bytes) (topics_set : List Bytes)
    → member t (evict (ts ++ t ∷ []) topics_set).0 ≡ true
unfolding evict member
evict_keeps_last [] t topics_set = rw (bytes_eq_refl t)
evict_keeps_last (u ∷ ts) t topics_set = ground (
  arith,
  evict_keeps_last ts t (erase u topics_set),
  member-append t ts (t ∷ []),
  bytes_eq_refl t,
)

record_loaded-member :
    (env : PersistEnv) (t : Bytes) (s : Observed) (files : TopicFiles)
    → Inv s
    → member t (record_loaded env s files (insert_topic t s)).0.topics ≡ true
unfolding insert_topic inserted
record_loaded-member env t s files h = elim (Bool-cases (member t s.topics_set)) [
  | inl e ↦ rw (e, insert_topic) (sym (h.agrees.same t) ∙ e)
  | inr e ↦ rw (e, insert_topic) (evict_keeps_last s.topics t (t ∷ s.topics_set))
]

-- A topic that is not empty is among the observed topics once it is recorded, also when older
-- topics had to leave for it.
pub record_observed_topic-member :
    (env : PersistEnv) (t : Bytes) (s : Observed) (files : TopicFiles)
    → Inv s
    → is_empty t ≡ false
    → member t (record_observed_topic env t s files).0.topics ≡ true
unfolding record_observed_topic
record_observed_topic-member env t s files h e =
    rw e (
      record_loaded-member env t (loaded_state files.main s) files
        (loaded_state-Inv files.main s h))
