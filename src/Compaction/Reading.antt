-- ===== src/Compaction/Reading.antt =====
-- slopd/src/journal.rs: `read_generation` over the files that `compact` writes.
use slopd.Base.{
  ℕ, String, Bool, true, false, some, List, [], ◌∷◌, ◌++◌, map, Map, get, insert, get-insert,
  string_eq, ◌||◌, subst, retain_keys, contains, filter, ◌≡◌, refl, sym, ap, ◌∙◌, append_assoc,
  append-nil, All, arith, eq_iff, eq_refl, Bool-cases, option_beq, inl, inr,
}
use slopd.Pane.Info.{PaneInfo, GraveEntry}
use slopd.Journal.Event.{
  GenerationKey, generation_eq, generation_eq_iff, generation_key_eq, pane, checkpoint, destroyed,
  revived,
}
use slopd.Journal.Replay.{
  GenerationState, empty_state, read_generation, replay_from, apply_event, named_panes,
  replay_from-append, insert_source,
}
use slopd.Journal.Writer.{pane_ids}
use slopd.Journal.Distinct.{IsFresh, IsDistinct}
use slopd.Compaction.{
  compacted_events, source_event, checkpoint_events, revival_event, kept_grave, kept_revival,
}

put_all : List PaneInfo → Map String PaneInfo → Map String PaneInfo
put_all [] m = m
put_all (p ∷ ps) m = put_all ps (insert p.pane_id p m)

replay_panes :
    (at : ℕ) (ps : List PaneInfo) (st : GenerationState)
    → replay_from st (map (pane at) ps) ≡ record st { pane_versions = put_all ps st.pane_versions }
unfolding replay_from put_all
replay_panes at [] st = refl
replay_panes at (p ∷ ps) st = replay_panes at ps (apply_event st (pane at p))

get-put_all_fresh :
    (p : PaneInfo) (ps : List PaneInfo) (m : Map String PaneInfo)
    → IsFresh p ps
    → get (put_all ps m) p.pane_id ≡ get m p.pane_id
unfolding put_all
get-put_all_fresh p [] m h = refl
get-put_all_fresh p (q ∷ ps) m h =
    get-put_all_fresh p ps (insert q.pane_id q m) h.1
    ∙ ground (arith, get-insert q.pane_id p.pane_id q m, eq_iff q.pane_id p.pane_id, h.0)

named_panes-put_all :
    (ps : List PaneInfo) (m : Map String PaneInfo)
    → IsDistinct ps
    → named_panes (put_all ps m) (pane_ids ps) ≡ ps
unfolding named_panes put_all
named_panes-put_all [] m d = refl
named_panes-put_all (p ∷ ps) m d =
    let found : get (put_all ps (insert p.pane_id p m)) p.pane_id ≡ some p =
      get-put_all_fresh p ps (insert p.pane_id p m) d.0
      ∙ (get-insert p.pane_id p.pane_id p m ∙ rw (eq_refl p.pane_id) refl) in
    ground (arith, found, named_panes-put_all ps (insert p.pane_id p m) d.1)

replay_graves :
    (gs : List GraveEntry) (st : GenerationState)
    → replay_from st (map destroyed gs) ≡ record st { graves = st.graves ++ gs }
unfolding replay_from
replay_graves [] st = rw (append-nil st.graves) refl
replay_graves (g ∷ gs) st =
    replay_graves gs (apply_event st (destroyed g))
    ∙ ap (λ (l : List GraveEntry). record st { graves = l }) (append_assoc st.graves (g ∷ []) gs)

replay_revivals :
    (key : GenerationKey) (rs : List (String × ℕ × String)) (st : GenerationState)
    → replay_from st (map (revival_event key) rs) ≡ record st { revivals = st.revivals ++ rs }
unfolding replay_from
replay_revivals key [] st = rw (append-nil st.revivals) refl
replay_revivals key ((g, at, p) ∷ rs) st =
    replay_revivals key rs (apply_event st (revived at g p key.tmux_boot_id key.tmux_session_id))
    ∙ ap (λ (l : List (String × ℕ × String)). record st { revivals = l })
        (append_assoc st.revivals ((g, at, p) ∷ []) rs)

abbrev add_sources : List GenerationKey → List GenerationKey → List GenerationKey
add_sources [] rs = rs
add_sources (k ∷ ks) rs = add_sources ks (insert_source k rs)

contains-insert_source :
    (k x : GenerationKey) (rs : List GenerationKey)
    → contains (insert_source k rs) x ≡ (generation_eq k x || contains rs x)
unfolding insert_source contains
contains-insert_source k x rs = elim (Bool-cases (contains rs k)) [
  | inl e ↦ elim (Bool-cases (generation_eq k x)) [
    | inl f ↦ rw (e, f, sym ((generation_eq_iff k x).0 f)) e
    | inr f ↦ rw (e, f) refl
  ]
  | inr e ↦ rw e refl
]

contains-add_sources :
    (x : GenerationKey) (ks rs : List GenerationKey)
    → contains (add_sources ks rs) x ≡ (contains ks x || contains rs x)
unfolding contains
contains-add_sources x [] rs = refl
contains-add_sources x (k ∷ ks) rs =
    ground (arith, contains-add_sources x ks (insert_source k rs), contains-insert_source k x rs)

apply_event-source :
    (at : ℕ) (key k : GenerationKey) (st : GenerationState)
    → st.key ≡ some key
    → generation_eq key k ≡ false
    → apply_event st (source_event at k)
      ≡ record st { resolved_sources = insert_source k st.resolved_sources }
unfolding apply_event option_beq
apply_event-source at key k st e h =
    let other : option_beq st.key (some k) ≡ false = ap (λ o. option_beq o (some k)) e ∙ h in
    rw other refl

replay_sources :
    (at : ℕ) (key : GenerationKey) (ks : List GenerationKey) (st : GenerationState)
    → st.key ≡ some key
    → All (λ k. generation_eq key k ≡ false) ks
    → replay_from st (map (source_event at) ks)
      ≡ record st { resolved_sources = add_sources ks st.resolved_sources }
unfolding replay_from
replay_sources at key [] st e h = refl
replay_sources at key (k ∷ ks) st e h =
    ap (λ (s : GenerationState). replay_from s (map (source_event at) ks))
      (apply_event-source at key k st e h.0)
    ∙ replay_sources at key ks
        (record st { resolved_sources = insert_source k st.resolved_sources }) e h.1

abbrev checkpoint_versions : Bool → List PaneInfo → Map String PaneInfo
checkpoint_versions false ps = []
checkpoint_versions true ps = retain_keys (contains (pane_ids ps)) (put_all ps [])

replay_checkpoint_events :
    (at : ℕ) (hc : Bool) (ps : List PaneInfo) (st : GenerationState)
    → IsDistinct ps
    → (hc ≡ false → ps ≡ [])
    → st.pane_versions ≡ []
    → st.checkpoint ≡ []
    → st.has_checkpoint ≡ false
    → replay_from st (checkpoint_events at hc ps) ≡ record st {
      pane_versions = checkpoint_versions hc ps;
      checkpoint = ps;
      has_checkpoint = hc;
    }
unfolding replay_from checkpoint_events apply_event
replay_checkpoint_events at false ps st d n v c h = rw (n refl) (rw (sym v, sym c, sym h) refl)
replay_checkpoint_events at true ps st d n v c h =
    replay_from-append st (map (pane at) ps) (checkpoint at (pane_ids ps) ∷ [])
    ∙ rw (replay_panes at ps st, v, named_panes-put_all ps [] d) refl

-- What the reader finds in the rewritten file of `g`: all of it but the graves and the revivals
-- that were not kept.
pub record IsReadBack (ids : List String) (key : GenerationKey) (g r : GenerationState)
    : Type 0 where
  pub same_key : r.key ≡ some key
  pub same_start : r.started_at ≡ g.started_at
  pub same_checkpoint : r.checkpoint ≡ g.checkpoint
  pub same_has_checkpoint : r.has_checkpoint ≡ g.has_checkpoint
  pub kept_graves : r.graves ≡ filter (kept_grave ids) g.graves
  pub kept_revivals : r.revivals ≡ filter (kept_revival ids) g.revivals
  pub same_sources :
      (k : GenerationKey) → contains r.resolved_sources k ≡ contains g.resolved_sources k

abbrev rewritten : List String → GenerationKey → GenerationState → GenerationState
rewritten ids key g = record {
  key = some key;
  started_at = g.started_at;
  pane_versions = checkpoint_versions g.has_checkpoint g.checkpoint;
  checkpoint = g.checkpoint;
  has_checkpoint = g.has_checkpoint;
  graves = filter (kept_grave ids) g.graves;
  revivals = filter (kept_revival ids) g.revivals;
  resolved_sources = add_sources g.resolved_sources [];
}

read-rewritten :
    (at : ℕ) (ids : List String) (key : GenerationKey) (g : GenerationState)
    → IsDistinct g.checkpoint
    → (g.has_checkpoint ≡ false → g.checkpoint ≡ [])
    → All (λ k. generation_eq key k ≡ false) g.resolved_sources
    → read_generation (compacted_events at ids key g) ≡ rewritten ids key g
unfolding read_generation replay_from compacted_events apply_event
read-rewritten at ids key g d n h =
    let started = record empty_state { key = some key; started_at = g.started_at } in
    let with_checkpoint = record started {
      pane_versions = checkpoint_versions g.has_checkpoint g.checkpoint;
      checkpoint = g.checkpoint;
      has_checkpoint = g.has_checkpoint;
    } in
    let with_graves = record with_checkpoint { graves = filter (kept_grave ids) g.graves } in
    let with_revivals = record with_graves { revivals = filter (kept_revival ids) g.revivals } in
    let sources = map (source_event at) g.resolved_sources in
    let revivals = map (revival_event key) (filter (kept_revival ids) g.revivals) in
    let graves = map destroyed (filter (kept_grave ids) g.graves) in
    replay_from-append started (checkpoint_events at g.has_checkpoint g.checkpoint)
      (graves ++ (revivals ++ sources))
    ∙ (ap (λ s. replay_from s (graves ++ (revivals ++ sources)))
          (replay_checkpoint_events at g.has_checkpoint g.checkpoint started d n refl refl refl)
        ∙ (replay_from-append with_checkpoint graves (revivals ++ sources)
            ∙ (ap (λ s. replay_from s (revivals ++ sources))
                  (replay_graves (filter (kept_grave ids) g.graves) with_checkpoint)
                ∙ (replay_from-append with_graves revivals sources
                    ∙ (ap (λ s. replay_from s sources)
                          (replay_revivals key (filter (kept_revival ids) g.revivals) with_graves)
                        ∙ replay_sources at key g.resolved_sources with_revivals refl h)))))

-- Replaying the file that compaction writes for a generation gives that generation back: its key,
-- start, checkpoint and resolved sources are unchanged, and of its graves and revivals exactly
-- those of the retained ids are left, in their order. It assumes what the journal keeps of a
-- generation: its checkpoint names no pane twice, there is none without a checkpoint event, and it
-- is not among its own resolved sources.
pub read-compacted_events :
    (at : ℕ) (ids : List String) (key : GenerationKey) (g : GenerationState)
    → IsDistinct g.checkpoint
    → (g.has_checkpoint ≡ false → g.checkpoint ≡ [])
    → All (λ k. generation_eq key k ≡ false) g.resolved_sources
    → IsReadBack ids key g (read_generation (compacted_events at ids key g))
unfolding contains
read-compacted_events at ids key g d n h =
    subst (IsReadBack ids key g) (sym (read-rewritten at ids key g d n h)) (record {
      same_key = refl;
      same_start = refl;
      same_checkpoint = refl;
      same_has_checkpoint = refl;
      kept_graves = refl;
      kept_revivals = refl;
      same_sources = λ k.
          contains-add_sources k g.resolved_sources [] ∙ or_false (contains g.resolved_sources k);
    })
  where
    or_false : (b : Bool) → (b || false) ≡ b
    or_false true = refl
    or_false false = refl
