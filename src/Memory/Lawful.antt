-- ===== src/Memory/Lawful.antt =====
-- The backend in memory keeps the laws.
use mathlib.Core.Path.{subst}
use zipstash.Base.{
  ◌≡◌, refl, sym, ap, ◌∙◌, true, false, not, ◌&&◌, List, [], ◌∷◌, Option, none, some, Text, text_eq,
  text_eq→eq, text_eq_refl, has_prefix, if◌then◌else◌, Result, ok, err, Err, inl, inr, arith,
  Bool-cases, Option-cases, All,
}
use zipstash.Index.{CacheRecord, TenantRecord}
use zipstash.Backend.{WriteOptions, ReadOptions}
use zipstash.Backend.Laws.{IsFollowed, Row, attribute, IsMatch, Holds, IsLawful}
use zipstash.Memory.{
  Entry, find, value_at, is_some, insert, is_text, begins_with, matches, value_of, first_match,
  MemoryWorld, on_caches, on_tenants, memory,
}

is_text-true : (s : Option Text) (t : Text) → is_text s t ≡ true → s ≡ some t
unfolding is_text
is_text-true none t h = cc
is_text-true (some s) t h = ap some (text_eq→eq s t h)

begins_with-true :
    (s : Option Text) (t : Text)
    → begins_with s t ≡ true
    → (u : Text) × (s ≡ some u) × (has_prefix u t ≡ true)
unfolding begins_with
begins_with-true none t h = cc
begins_with-true (some s) t h = (s, refl, h)

some-injective : {A : Type 0} {a b : A} → some a ≡ some b → a ≡ b
some-injective h = cc

module _ {V : Type 0} where
  -- What holds of every entry holds of the row that is found.
  pub find-All :
      (P : Row V → Type 0) (q k : Text) (es : List (Entry V)) {row : Row V}
      → All (λ e. P e.row) es
      → find q k es ≡ some row
      → P row
  unfolding find
  find-All P q k [] h e = cc
  find-All P q k (f ∷ es) {row} (h, hs) e = elim (Bool-cases (text_eq f.p q && text_eq f.k k)) [
    | inl here ↦ let same : f.row ≡ row = some-injective (rw here at e) in subst P same h
    | inr elsewhere ↦ find-All P q k es hs (rw elsewhere at e)
  ]

  pub value_at-ok :
      (r : Option (Row V)) {v : V}
      → value_at r ≡ ok v
      → (row : Row V) × (r ≡ some row) × (row.value ≡ v)
  unfolding value_at
  value_at-ok none h = cc
  value_at-ok (some row) h = (row, refl, cc)

  pub value_at-err : (r : Option (Row V)) {e : Err} → value_at r ≡ err e → r ≡ none
  unfolding value_at
  value_at-err none h = refl
  value_at-err (some row) h = cc

  pub insert-find :
      (p k : Text) (v : V) (o : WriteOptions) (es fs : List (Entry V))
      → insert p k v o es ≡ (ok tt, fs)
      → (q l : Text)
      → find q l fs ≡ (
          if text_eq p q && text_eq k l
          then some (record { value = v; extra_fields = o.extra_fields })
          else find q l es)
  unfolding insert find
  insert-find p k v o es fs h q l =
      elim (Bool-cases (not o.create_constraint_disabled && is_some (find p k es))) [
        | inl taken ↦ absurd (let e : (err _, es) ≡ (ok tt, fs) = rw taken at h in cc)
        | inr free ↦
            let e : record {
              p = p;
              k = k;
              row = record { value = v; extra_fields = o.extra_fields };
            }
                  ∷ es
                ≡ fs =
              ap (λ x. x.1) (rw free at h) in
            rw (← e) refl
      ]

  pub insert-new :
      (p k : Text) (v : V) (o : WriteOptions) (es fs : List (Entry V))
      → o.create_constraint_disabled ≡ false
      → insert p k v o es ≡ (ok tt, fs)
      → find p k es ≡ none
  unfolding insert is_some
  insert-new p k v o es fs h e = elim (Option-cases (find p k es)) [
    | inl missing ↦ missing
    | inr (row, there) ↦ absurd (let e' : (err _, es) ≡ (ok tt, fs) = rw (h, there) at e in cc)
  ]

  matches-IsMatch :
      (partition prefix : Text) (o : ReadOptions) (p k : Text) (row : Row V)
      → matches partition prefix o p k (some row) ≡ true
      → IsMatch partition prefix o p k row
  unfolding matches
  matches-IsMatch partition prefix o p k row h =
      let (u, e, b) = begins_with-true (attribute p k row o.sort_attribute) prefix (ground arith) in
      record {
        sort_value = u;
        in_partition =
            is_text-true (attribute p k row o.partition_attribute) partition (ground arith);
        sorted_by = e;
        begins = b;
      }

  IsMatch-matches :
      (partition prefix : Text) (o : ReadOptions) (p k : Text) (row : Row V)
      → IsMatch partition prefix o p k row
      → matches partition prefix o p k (some row) ≡ true
  unfolding matches is_text begins_with
  IsMatch-matches partition prefix o p k row m =
      rw (m.in_partition, m.sorted_by, text_eq_refl partition, m.begins) refl

  matched :
      (partition prefix : Text) (o : ReadOptions) (p k : Text) (r : Option (Row V))
      → matches partition prefix o p k r ≡ true
      → (row : Row V) × (r ≡ some row) × IsMatch partition prefix o p k row
  unfolding matches
  matched partition prefix o p k none h = cc
  matched partition prefix o p k (some row) h =
      (row, refl, matches-IsMatch partition prefix o p k row h)

  value_of-some :
      (r : Option (Row V)) {row : Row V} {v : V} {vs : List V}
      → r ≡ some row
      → value_of r ≡ v ∷ vs
      → row.value ≡ v
  unfolding value_of
  value_of-some none e h = cc
  value_of-some (some r) e h = cc

  value_of-nil : (r : Option (Row V)) {row : Row V} → r ≡ some row → value_of r ≡ [] → true ≡ false
  unfolding value_of
  value_of-nil none e h = cc
  value_of-nil (some r) e h = cc

  pub first_found :
      (partition prefix : Text) (o : ReadOptions) (all es : List (Entry V)) {v : V} {vs : List V}
      → first_match partition prefix o all es ≡ v ∷ vs
      → Holds (λ p k. find p k all) partition prefix o v
  unfolding first_match
  first_found partition prefix o all [] h = cc
  first_found partition prefix o all (e ∷ es) {v} {vs} h =
      elim (Bool-cases (matches partition prefix o e.p e.k (find e.p e.k all))) [
        | inl match ↦
            let (row, there, m) = matched partition prefix o e.p e.k (find e.p e.k all) match in
            record {
              p = e.p;
              k = e.k;
              row = row;
              at = there;
              holds = value_of-some (find e.p e.k all) there (rw match at h);
              matches = m;
            }
        | inr other ↦ first_found partition prefix o all es (rw other at h)
      ]

  first_none :
      (partition prefix : Text) (o : ReadOptions) (all es : List (Entry V)) (q l : Text)
      (row : Row V)
      → first_match partition prefix o all es ≡ []
      → find q l es ≡ some row
      → matches partition prefix o q l (find q l all) ≡ false
  unfolding first_match find
  first_none partition prefix o all [] q l row h there = cc
  first_none partition prefix o all (e ∷ es) q l row h there =
      elim (Bool-cases (matches partition prefix o e.p e.k (find e.p e.k all))) [
        | inl match ↦
            let (found, at, _) = matched partition prefix o e.p e.k (find e.p e.k all) match in
            let no = value_of-nil (find e.p e.k all) at (rw match at h) in cc
        | inr other ↦ elim (Bool-cases (text_eq e.p q && text_eq e.k l)) [
          | inl here ↦
              let same_p : e.p ≡ q = text_eq→eq e.p q (ground arith) in
              let same_k : e.k ≡ l = text_eq→eq e.k l (ground arith) in
              rw (← same_p, ← same_k) other
          | inr elsewhere ↦
              first_none partition prefix o all es q l row (rw other at h) (rw elsewhere at there)
        ]
      ]

pub on_caches-ok :
    (w : MemoryWorld) (r : Result (Unit {0}) × List (Entry CacheRecord)) {w' : MemoryWorld}
    → on_caches w r ≡ (ok tt, w')
    → r ≡ (ok tt, w'.caches)
on_caches-ok w (r, es) h = (ap (λ x. (x.0, (x.1).caches)) h)

pub on_tenants-ok :
    (w : MemoryWorld) (r : Result (Unit {0}) × List (Entry TenantRecord)) {w' : MemoryWorld}
    → on_tenants w r ≡ (ok tt, w')
    → r ≡ (ok tt, w'.tenants)
on_tenants-ok w (r, es) h = (ap (λ x. (x.0, (x.1).tenants)) h)

pub ok-injective : {A : Type 0} {a b : A} → ok a ≡ ok b → a ≡ b
ok-injective h = cc

pub no_match :
    {V : Type 0} (p prefix : Text) (o : ReadOptions) (es : List (Entry V)) (q l : Text)
    (row : Row V)
    → ok (first_match p prefix o es es) ≡ ok []
    → find q l es ≡ some row
    → ¬ IsMatch p prefix o q l row
no_match p prefix o es q l row h at m =
    let e : first_match p prefix o es es ≡ [] = cc in
    let n = first_none p prefix o es es q l row e at in
    let y = IsMatch-matches p prefix o q l row m in
    let z : true ≡ false = sym y ∙ ap (matches p prefix o q l) (sym at) ∙ n in cc

abbrev pub memory_lawful : IsLawful memory
memory_lawful = record {
  cache_rows = λ w p k. find p k w.caches;
  tenant_rows = λ w p k. find p k w.tenants;
  cache_lawful = record {
    get_ok = λ p k w h. value_at-ok (find p k w.caches) h;
    get_missing = λ p k w h m. value_at-err (find p k w.caches) h;
    create_ok =
        λ p k v o w h. insert-find p k v o w.caches _ (on_caches-ok w (insert p k v o w.caches) h);
    create_new = λ p k v o w e h.
        insert-new p k v o w.caches _ e (on_caches-ok w (insert p k v o w.caches) h);
    list_found = λ p prefix o w h. first_found p prefix o w.caches w.caches (ok-injective h);
  };
  tenant_lawful = record {
    get_ok = λ p k w h. value_at-ok (find p k w.tenants) h;
    get_missing = λ p k w h m. value_at-err (find p k w.tenants) h;
    create_ok = λ p k v o w h.
        insert-find p k v o w.tenants _ (on_tenants-ok w (insert p k v o w.tenants) h);
    create_new = λ p k v o w e h.
        insert-new p k v o w.tenants _ e (on_tenants-ok w (insert p k v o w.tenants) h);
    list_found = λ p prefix o w h. first_found p prefix o w.tenants w.tenants (ok-injective h);
  };
  create_multipart_keeps = λ i w. refl;
  complete_multipart_keeps = λ i w. refl;
}

-- The memory is read as it is.
pub memory-IsFollowed :
    (w : MemoryWorld) → IsFollowed memory.tenant_store memory_lawful.tenant_rows w
memory-IsFollowed w = record {
  list_none = λ p prefix o h q l row at. no_match p prefix o w.tenants q l row h at;
}
