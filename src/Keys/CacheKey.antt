-- ===== src/Keys/CacheKey.antt =====
-- `buildCacheKey`: what plain parts give, and what a key with ".." elements gives.
use zipstash.Base.{◌≡◌, ap, sym, ◌∙◌, false, List, [], ◌∷◌, ◌++◌, append-nil, Text, Lacks, All}
use zipstash.GoStd.Strings.{join, split, split_of_Lacks, split-join}
use zipstash.GoStd.CleanPath.{slash, dot_dot, resolve}
use zipstash.GoStd.CleanPath.Plain.{
  resolve_cons-plain, resolve_cons-dot_dot, rebuilt-plain, IsPlain, join_path-plain,
  join_path-rebuilt, rebuilt, split_all,
}
use zipstash.Keys.{build_cache_key}

-- The five parts of a key, each a plain name.
pub record ArePlain (owner provider os arch key : Text) : Type 0 where
  pub owner_plain : IsPlain owner
  pub provider_plain : IsPlain provider
  pub os_plain : IsPlain os
  pub arch_plain : IsPlain arch
  pub key_plain : IsPlain key

All-IsPlain : (o p s a k : Text) → ArePlain o p s a k → All IsPlain (o ∷ p ∷ s ∷ a ∷ k ∷ [])
All-IsPlain o p s a k h =
    (h.owner_plain, (h.provider_plain, (h.os_plain, (h.arch_plain, (h.key_plain, tt)))))

All-Lacks : (ps : List Text) → All IsPlain ps → All (Lacks slash) ps
All-Lacks [] h = tt
All-Lacks (p ∷ ps) (hp, h) = (hp.no_slash, All-Lacks ps h)

-- Plain parts are joined by slashes, in order and unchanged.
pub build_cache_key-join :
    (owner provider os arch key : Text)
    → ArePlain owner provider os arch key
    → build_cache_key owner provider os arch key
      ≡ join (owner ∷ provider ∷ os ∷ arch ∷ key ∷ []) slash
unfolding build_cache_key
build_cache_key-join owner provider os arch key h =
    join_path-plain owner _ (All-IsPlain owner provider os arch key h)

split-build_cache_key :
    (o p s a k : Text)
    → ArePlain o p s a k
    → split (build_cache_key o p s a k) slash ≡ o ∷ p ∷ s ∷ a ∷ k ∷ []
split-build_cache_key o p s a k h =
    ap (λ t. split t slash) (build_cache_key-join o p s a k h)
    ∙ split-join o _ slash (All-Lacks (o ∷ p ∷ s ∷ a ∷ k ∷ []) (All-IsPlain o p s a k h))

-- Two entries whose parts are plain have the same key only if all parts are the same.
pub build_cache_key_injective :
    (o p s a k o' p' s' a' k' : Text)
    → ArePlain o p s a k
    → ArePlain o' p' s' a' k'
    → build_cache_key o p s a k ≡ build_cache_key o' p' s' a' k'
    → (o ≡ o') × (p ≡ p') × (s ≡ s') × (a ≡ a') × (k ≡ k')
build_cache_key_injective o p s a k o' p' s' a' k' h h' e =
    let same : ◌≡◌ {A = List Text} (o ∷ p ∷ s ∷ a ∷ k ∷ []) (o' ∷ p' ∷ s' ∷ a' ∷ k' ∷ []) =
      cc (split-build_cache_key o p s a k h, split-build_cache_key o' p' s' a' k' h') in
    (cc, cc, cc, cc, cc)

-- The four plain parts before the key.
pub record ArePlainParents (owner provider os arch : Text) : Type 0 where
  pub owner_plain : IsPlain owner
  pub provider_plain : IsPlain provider
  pub os_plain : IsPlain os
  pub arch_plain : IsPlain arch

abbrev pub climb : Text → Text
climb s = dot_dot ++ slash ∷ s

-- "../../../../" before a key
abbrev pub climb_out : Text → Text
climb_out key = climb (climb (climb (climb key)))

-- The elements that `Clean` sees.
climbing : Text → Text → Text → Text → List Text → List Text
climbing owner provider os arch ps =
    owner ∷ provider ∷ os ∷ arch ∷ dot_dot ∷ dot_dot ∷ dot_dot ∷ dot_dot ∷ ps

resolve-climbing :
    (owner provider os arch : Text) (ps : List Text)
    → ArePlainParents owner provider os arch
    → resolve false [] (climbing owner provider os arch ps) ≡ resolve false [] ps
unfolding climbing
resolve-climbing owner provider os arch ps h = rw (
  resolve_cons-plain false owner _ _ h.owner_plain,
  resolve_cons-plain false provider _ _ h.provider_plain,
  resolve_cons-plain false os _ _ h.os_plain,
  resolve_cons-plain false arch _ _ h.arch_plain,
  resolve_cons-dot_dot false arch _ _ h.arch_plain,
  resolve_cons-dot_dot false os _ _ h.os_plain,
  resolve_cons-dot_dot false provider _ _ h.provider_plain,
  resolve_cons-dot_dot false owner _ _ h.owner_plain,
)

split_all-key :
    (owner provider os arch key : Text)
    → ArePlainParents owner provider os arch
    → split_all (owner ∷ provider ∷ os ∷ arch ∷ key ∷ [])
      ≡ owner ∷ provider ∷ os ∷ arch ∷ split key slash
unfolding split_all
split_all-key owner provider os arch key h = rw (
  split_of_Lacks owner slash h.owner_plain.no_slash,
  split_of_Lacks provider slash h.provider_plain.no_slash,
  split_of_Lacks os slash h.os_plain.no_slash,
  split_of_Lacks arch slash h.arch_plain.no_slash,
  append-nil,
)

split_all-climb_out :
    (owner provider os arch key : Text)
    → ArePlainParents owner provider os arch
    → split_all (owner ∷ provider ∷ os ∷ arch ∷ climb_out key ∷ [])
      ≡ climbing owner provider os arch (split key slash)
unfolding split climbing
split_all-climb_out owner provider os arch key h =
    split_all-key owner provider os arch (climb_out key) h

rebuilt-resolve :
    (ps qs : List Text) → resolve false [] ps ≡ resolve false [] qs → rebuilt ps ≡ rebuilt qs
unfolding rebuilt
rebuilt-resolve ps qs h = cc

-- A key that begins with "../../../../" leaves the owner's part of the bucket: from below any owner
-- it names the key of every entry with plain parts.
pub build_cache_key-climb_out :
    (owner provider os arch o p s a k : Text)
    → ArePlainParents owner provider os arch
    → ArePlain o p s a k
    → build_cache_key owner provider os arch (climb_out (build_cache_key o p s a k))
      ≡ build_cache_key o p s a k
unfolding build_cache_key
build_cache_key-climb_out owner provider os arch o p s a k h v =
    let target : Text = build_cache_key o p s a k in
    let parts : List Text = o ∷ p ∷ s ∷ a ∷ k ∷ [] in
    join_path-rebuilt owner (provider ∷ os ∷ arch ∷ climb_out target ∷ []) h.owner_plain
    ∙ ap rebuilt (split_all-climb_out owner provider os arch target h)
    ∙ ap (λ ps. rebuilt (climbing owner provider os arch ps)) (split-build_cache_key o p s a k v)
    ∙ rebuilt-resolve _ parts (resolve-climbing owner provider os arch parts h)
    ∙ rebuilt-plain o _ (All-IsPlain o p s a k v)
    ∙ sym (build_cache_key-join o p s a k v)
