-- ===== src/Oauth/Logged.antt =====
-- slopd-mcp/src/oauth.rs: the tokens in memory and the file that the store appends to.
use slopd.Base.{
  String, Bool, true, false, none, some, List, [], ◌∷◌, ◌++◌, Map, get, insert, string_eq,
  get-insert, ◌==◌, if◌then◌else◌, ◌≡◌, refl, sym, ◌∙◌, arith, Bool-cases, inl, inr, eq_iff, subst,
}
use slopd.Oauth.Store.{
  AccessToken, OauthEvent, version, client_registered, token_issued, Inner, replay_tokens, log,
  synced, issued,
}
use slopd.Oauth.File.{
  EventFile, Line, Tail, Outcome, whole, clean, part, unended, works, fails, tears, unends,
  is_works, written, IsWhole, events, events-append, IsWhole-append, spoiled_not-IsWhole,
}

-- An event gives no token of the memory another entry.
abbrev pub Spares : Map String AccessToken → OauthEvent → Type 0
Spares m (token_issued t a) = get m t ≡ none
Spares m (client_registered id c) = Unit
Spares m (version n) = Unit

abbrev pub SparesTail : Map String AccessToken → Tail OauthEvent → Type 0
SparesTail m clean = Unit
SparesTail m part = Unit
SparesTail m (unended e) = Spares m e

abbrev pub InFile : Map String AccessToken → List OauthEvent → Type 0
InFile m es =
    (t : String) (a : AccessToken) → get m t ≡ some a → get (replay_tokens [] es) t ≡ some a

-- Every token in memory is in the lines of the file, and what stands behind them gives none of these
-- another entry.
pub record Saves (m : Map String AccessToken) (f : EventFile OauthEvent) : Type 0 where
  pub in_lines : IsWhole f.lines → InFile m (events f.lines)
  pub in_tail : SparesTail m f.tail

abbrev pub IsSaved : Inner → Type 0
IsSaved s = Saves s.tokens s.file

replay_tokens-last :
    (m : Map String AccessToken) (es : List OauthEvent) (e : OauthEvent)
    → replay_tokens m (es ++ e ∷ []) ≡ replay_tokens (replay_tokens m es) (e ∷ [])
unfolding replay_tokens
replay_tokens-last m [] e = refl
replay_tokens-last m (version n ∷ es) e = replay_tokens-last m es e
replay_tokens-last m (client_registered i d ∷ es) e = replay_tokens-last m es e
replay_tokens-last m (token_issued u b ∷ es) e = replay_tokens-last (insert u b m) es e

one-Spares :
    (m k : Map String AccessToken) (e : OauthEvent) (u : String) (b : AccessToken)
    → Spares m e
    → get m u ≡ some b
    → get k u ≡ some b
    → get (replay_tokens k (e ∷ [])) u ≡ some b
unfolding replay_tokens
one-Spares m k (version n) u b fresh h g = g
one-Spares m k (client_registered i c) u b fresh h g = g
one-Spares m k (token_issued t a) u b fresh h g =
    rw (get-insert t u a k)
      (elim (Bool-cases (t == u)) [ inl e ↦ absurd (clash ((eq_iff t u).0 e)) | inr e ↦ rw e g ])
  where
    clash : t ≡ u → ⊥
    clash e = cc

pub spared-InFile :
    (m : Map String AccessToken) (es : List OauthEvent) (e : OauthEvent)
    → Spares m e
    → InFile m es
    → InFile m (es ++ e ∷ [])
spared-InFile m es e fresh h u b found =
    rw (replay_tokens-last [] es e)
      (one-Spares m (replay_tokens [] es) e u b fresh found (h u b found))

inserted-InFile :
    (m : Map String AccessToken) (es : List OauthEvent) (t : String) (a : AccessToken)
    → InFile m es
    → InFile (insert t a m) (es ++ token_issued t a ∷ [])
unfolding replay_tokens
inserted-InFile m es t a h u b found =
    let here : (if t == u then some a else get m u) ≡ some b = sym (get-insert t u a m) ∙ found in
    rw (replay_tokens-last [] es (token_issued t a), get-insert t u a (replay_tokens [] es))
      (ground (arith, here, h u b))

-- One more line, which is the event or is spoiled.
one_more :
    (m n : Map String AccessToken) (e : OauthEvent) (ls : List (Line OauthEvent))
    (t : Tail OauthEvent)
    → (InFile m (events ls) → InFile n (events ls ++ e ∷ []))
    → (IsWhole ls → InFile m (events ls))
    → IsWhole (written works e (record { lines = ls; tail = t })).lines
    → InFile n (events (written works e (record { lines = ls; tail = t })).lines)
one_more m n e ls clean step h w =
    subst (InFile n) (sym (events-append ls e)) (step (h (IsWhole-append ls (whole e) w)))
one_more m n e ls part step h w = absurd (spoiled_not-IsWhole ls w)
one_more m n e ls (unended f) step h w = absurd (spoiled_not-IsWhole ls w)

text-Spares :
    (m : Map String AccessToken) (e : OauthEvent) (f : EventFile OauthEvent) (t : Tail OauthEvent)
    → f.tail ≡ t
    → Spares m e
    → SparesTail m (written unends e (record f { tail = t })).tail
text-Spares m e f clean p h = h
text-Spares m e f part p h = tt
text-Spares m e f (unended g) p h = tt

-- An append of an event that spares the memory, whatever becomes of it.
spared-Saves :
    (m : Map String AccessToken) (o : Outcome) (e : OauthEvent) (f : EventFile OauthEvent)
    → Spares m e
    → Saves m f
    → Saves m (written o e f)
spared-Saves m works e f fresh h = record {
  in_lines = one_more m m e f.lines f.tail (spared-InFile m (events f.lines) e fresh) h.in_lines;
  in_tail = tt;
}
spared-Saves m fails e f fresh h = h
spared-Saves m tears e f fresh h = record { in_lines = h.in_lines; in_tail = tt }
spared-Saves m unends e f fresh h = record {
  in_lines = h.in_lines;
  in_tail = text-Spares m e f f.tail refl fresh;
}

inserted-Saves :
    (m : Map String AccessToken) (o : Outcome) (t : String) (a : AccessToken)
    (f : EventFile OauthEvent)
    → is_works o ≡ true
    → Saves m f
    → Saves (insert t a m) (written o (token_issued t a) f)
inserted-Saves m works t a f w h = record {
  in_lines =
      one_more m (insert t a m) (token_issued t a) f.lines f.tail
        (inserted-InFile m (events f.lines) t a) h.in_lines;
  in_tail = tt;
}
inserted-Saves m fails t a f w h = absurd (ground (arith, w))
inserted-Saves m tears t a f w h = absurd (ground (arith, w))
inserted-Saves m unends t a f w h = absurd (ground (arith, w))

synced-IsSaved :
    (b : Bool) (fs : List Outcome) (s : Inner) (t : String) (a : AccessToken)
    → IsSaved s
    → (b ≡ true → Saves (insert t a s.tokens) s.file)
    → IsSaved (issued t a (synced b fs s)).1
synced-IsSaved false fs s t a h k = h
synced-IsSaved true [] s t a h k = k refl
synced-IsSaved true (sync ∷ fs) s t a h k = by_sync (is_works sync) (k refl)
  where
    by_sync :
        (b : Bool)
        → Saves (insert t a s.tokens) s.file
        → IsSaved (issued t a (b, record s { faults = fs })).1
    by_sync true g = g
    by_sync false g = h

pub issued-IsSaved :
    (s : Inner) (t : String) (a : AccessToken) (faults : List Outcome)
    → IsSaved s
    → get s.tokens t ≡ none
    → IsSaved (issued t a (log (token_issued t a) faults s)).1
issued-IsSaved s t a [] h fresh = inserted-Saves s.tokens works t a s.file refl h
issued-IsSaved s t a (o ∷ fs) h fresh =
    synced-IsSaved (is_works o) fs (record s { file = written o (token_issued t a) s.file }) t a
      (spared-Saves s.tokens o (token_issued t a) s.file fresh h)
      (λ w. inserted-Saves s.tokens o t a s.file w h)

-- What a log of an event leaves when nothing else is done with the memory's tokens.
pub logged-IsSaved :
    (e : OauthEvent) (faults : List Outcome) (s : Inner)
    → Spares s.tokens e
    → IsSaved s
    → IsSaved (log e faults s).1
logged-IsSaved e [] s fresh h = spared-Saves s.tokens works e s.file fresh h
logged-IsSaved e (o ∷ fs) s fresh h =
    after_sync (is_works o) fs (record s { file = written o e s.file })
      (spared-Saves s.tokens o e s.file fresh h)
  where
    after_sync : (b : Bool) (gs : List Outcome) (u : Inner) → IsSaved u → IsSaved (synced b gs u).1
    after_sync false gs u g = g
    after_sync true [] u g = g
    after_sync true (sync ∷ gs) u g = g
