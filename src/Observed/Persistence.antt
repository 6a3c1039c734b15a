-- ===== src/Observed/Persistence.antt =====
-- The file of observed topics: it is replaced whole or not at all, and read back after a restart.
use virtualchime.Base.{
  ◌≤◌, true, false, List, [], ◌∷◌, ◌++◌, ◌≡◌, ◌≢◌, ◌⊎◌, refl, ◌∙◌, ap, arith, none, some, length,
  is_empty, all, Bytes, member, nodup, member-append, bytes_eq_sym, append_assoc, append-nil,
}
use virtualchime.Text.{unlines}
use virtualchime.Text.Trim.{IsTrimmed, trim_id}
use virtualchime.Text.Lines.{is_line, get_lines-unlines}
use virtualchime.Observed.{
  max_observed_topics, evict, load_loop, load_observed_topics, TopicFiles, PersistEnv,
  persist_observed_topics,
}
use virtualchime.Observed.Invariant.{Agrees, Agrees-empty, Agrees-insert}

-- Whatever fails on the way, the file is either as it was and an error is returned, or it holds
-- exactly the topics, one to a line, and no error is returned.
pub persist_observed_topics_atomic :
    (env : PersistEnv) (topics : List Bytes) (files : TopicFiles)
    → ((persist_observed_topics env topics files).0.main ≡ files.main)
        × ((persist_observed_topics env topics files).1 ≢ none)
      ⊎ ((persist_observed_topics env topics files).0.main ≡ some (unlines topics))
        × ((persist_observed_topics env topics files).1 ≡ none)
unfolding persist_observed_topics
persist_observed_topics_atomic env topics files = ground arith

-- A topic that a line of the file can hold.
pub record IsStored (topic : Bytes) : Type 0 where
  pub filled : is_empty topic ≡ false
  pub one_line : is_line topic ≡ true
  pub trimmed : IsTrimmed topic

pub data AllStored : List Bytes → Type 0 where
  nil : AllStored []
  cons : {t : Bytes} {ts : List Bytes} → IsStored t → AllStored ts → AllStored (t ∷ ts)

all-is_line : {ts : List Bytes} → AllStored ts → all is_line ts ≡ true
all-is_line nil = refl
all-is_line (cons {t} {ts} i h) = ground (arith, i.one_line, all-is_line h)

evict_small :
    (ts topics_set : List Bytes) → length ts ≤ max_observed_topics → (evict ts topics_set).0 ≡ ts
unfolding evict
evict_small [] topics_set h = refl
evict_small (t ∷ ts) topics_set h = ground arith

nodup_middle :
    (done : List Bytes) (t : Bytes) (ts : List Bytes)
    → nodup (done ++ (t ∷ ts)) ≡ true
    → member t done ≡ false
unfolding nodup
nodup_middle [] t ts h = refl
nodup_middle (d ∷ done) t ts h =
    ground (arith, nodup_middle done t ts, member-append d done (t ∷ ts), bytes_eq_sym t d)

load_loop_step :
    (t : Bytes) (ts done topics_set : List Bytes)
    → IsStored t
    → member t topics_set ≡ false
    → load_loop (t ∷ ts) done topics_set ≡ load_loop ts (done ++ t ∷ []) (t ∷ topics_set)
unfolding load_loop
load_loop_step t ts done topics_set i new = rw (load_loop, trim_id t i.trimmed, i.filled, new)

load_loop-stored :
    {ts : List Bytes} (done topics_set : List Bytes)
    → AllStored ts
    → Agrees done topics_set
    → nodup (done ++ ts) ≡ true
    → (load_loop ts done topics_set).0 ≡ done ++ ts
load_loop-stored done topics_set nil a h = rw append-nil (unfold load_loop in refl)
load_loop-stored done topics_set (cons {t} {ts} i r) a h =
    let new = a.same t ∙ nodup_middle done t ts h in
    ap (λ p. p.0) (load_loop_step t ts done topics_set i new)
    ∙ load_loop-stored (done ++ t ∷ []) (t ∷ topics_set) r (Agrees-insert t done topics_set a new)
        (rw append_assoc h)
    ∙ append_assoc done (t ∷ []) ts

-- Topics that lines can hold, none twice and at most 256, are what a restarted service loads from
-- the file that a successful write left.
pub load-persist :
    (env : PersistEnv) (topics : List Bytes) (files : TopicFiles)
    → AllStored topics
    → nodup topics ≡ true
    → length topics ≤ max_observed_topics
    → (persist_observed_topics env topics files).1 ≡ none
    → (load_observed_topics (persist_observed_topics env topics files).0.main).topics ≡ topics
unfolding load_observed_topics
load-persist env topics files st once small done =
    let file : (persist_observed_topics env topics files).0.main ≡ some (unlines topics) =
      ground (arith, persist_observed_topics_atomic env topics files) in
    let (ts, topics_set) = load_loop topics [] [] in
    let same : ts ≡ topics = load_loop-stored [] [] st Agrees-empty once in
    rw (file, get_lines-unlines topics (all-is_line st))
      (evict_small ts topics_set (rw same small) ∙ same)
