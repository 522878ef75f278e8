-- ===== src/GoStd/FilePath/Below.antt =====
-- What `Clean`, `Join` and `Rel` do below a directory that is given by plain elements.
use zipstash.Base.{
  has_prefix, has_prefix-append, prefix_laws, ℕ, ◌==◌, eq→text_eq, length, length-append, ◌≡◌, ◌≢◌,
  refl, sym, ap, ◌∙◌, true, List, [], ◌∷◌, ◌++◌, append-nil, arith, Bool-cases, inl, inr, Text,
  Lacks, All, All-append, text_eq, text_eq_refl, ne→text_eq_false, ok,
}
use zipstash.GoStd.Strings.{join, split, split-join, split-append_any, add_to_head}
use zipstash.GoStd.CleanPath.{
  slash, one_dot, dot_dot, clean, clean_step, resolve, rev_onto, join_elements, clean_nonempty,
  join_path,
}
use zipstash.GoStd.CleanPath.Plain.{
  IsPlain, resolve-plain, resolve-append, rev_onto-rev_onto, kept, resolve-kept,
}
use zipstash.GoStd.FilePath.{is_abs, words_of, base_words, rel_words, rel_clean, rel}

-- The absolute path of these elements.
abbrev pub root_path : List Text → Text
root_path ps = slash ∷ join ps slash

pub clean_rooted :
    (s : Text) → clean (slash ∷ s) ≡ root_path (rev_onto (resolve true [] (split s slash)) [])
unfolding clean
clean_rooted s = refl

All-Lacks-slash : (ps : List Text) → All IsPlain ps → All (Lacks slash) ps
All-Lacks-slash [] h = tt
All-Lacks-slash (p ∷ ps) (hp, h) = (hp.no_slash, All-Lacks-slash ps h)

pub split-join-plain :
    (p : Text) (ps : List Text) → All IsPlain (p ∷ ps) → split (join (p ∷ ps) slash) slash ≡ p ∷ ps
split-join-plain p ps h = split-join p ps slash (All-Lacks-slash (p ∷ ps) h)

rev_onto-twice : (ps qs : List Text) → rev_onto (rev_onto ps []) qs ≡ ps ++ qs
unfolding rev_onto
rev_onto-twice ps qs = rev_onto-rev_onto ps [] qs

resolve-join-plain :
    (p : Text) (ps : List Text)
    → All IsPlain (p ∷ ps)
    → resolve true [] (split (join (p ∷ ps) slash) slash) ≡ rev_onto (p ∷ ps) []
resolve-join-plain p ps h = rw (split-join-plain p ps h) (resolve-plain true (p ∷ ps) [] h)

clean_root-plain :
    (p : Text) (ps : List Text)
    → All IsPlain (p ∷ ps)
    → clean (root_path (p ∷ ps)) ≡ root_path (p ∷ ps)
clean_root-plain p ps h =
    rw (clean_rooted (join (p ∷ ps) slash), resolve-join-plain p ps h, rev_onto-twice (p ∷ ps) [])
      (rw append-nil refl)

-- What the cleaned join of a directory and a text resolves.
pub join_root-resolve :
    (p : Text) (ps : List Text) (x : Text)
    → All IsPlain (p ∷ ps)
    → join_path (root_path (p ∷ ps) ∷ x ∷ [])
      ≡ root_path (rev_onto (resolve true (rev_onto (p ∷ ps) []) (split x slash)) [])
unfolding join_path join_elements clean_nonempty
join_root-resolve p ps x h =
    clean_rooted (join (p ∷ ps) slash ++ slash ∷ x)
    ∙ rw
        (
          split-append_any (join (p ∷ ps) slash) x slash,
          resolve-append true (split (join (p ∷ ps) slash) slash) (split x slash) [],
          resolve-join-plain p ps h,
        )
        refl

-- The elements of a text that names no parent directory.
abbrev pub HasNoParent : Text → Type 0
HasNoParent x = All (λ p. p ≢ dot_dot) (split x slash)

pub join_root-kept :
    (p : Text) (ps : List Text) (x : Text)
    → All IsPlain (p ∷ ps)
    → HasNoParent x
    → join_path (root_path (p ∷ ps) ∷ x ∷ []) ≡ root_path (p ∷ ps ++ kept (split x slash))
join_root-kept p ps x h k =
    join_root-resolve p ps x h
    ∙ rw
        (
          resolve-kept true (split x slash) (rev_onto (p ∷ ps) []) k,
          rev_onto-rev_onto (kept (split x slash)) (rev_onto (p ∷ ps) []) [],
          append-nil (kept (split x slash)),
          rev_onto-twice (p ∷ ps) (kept (split x slash)),
        )
        refl

All-Lacks-add_to_head :
    (c : ℕ) (ps : List Text)
    → c ≢ slash
    → All (Lacks slash) ps
    → All (Lacks slash) (add_to_head c ps)
unfolding add_to_head
All-Lacks-add_to_head c [] hc h = ((hc, tt), tt)
All-Lacks-add_to_head c (p ∷ ps) hc (hp, h) = ((hc, hp), h)

All-Lacks-split : (x : Text) → All (Lacks slash) (split x slash)
unfolding split
All-Lacks-split [] = (tt, tt)
All-Lacks-split (c ∷ x) = elim (Bool-cases (c == slash)) [
  | inl e ↦ rw e (tt, All-Lacks-split x)
  | inr e ↦ rw e (All-Lacks-add_to_head c (split x slash) (ground arith) (All-Lacks-split x))
]

All-IsPlain-kept :
    (ps : List Text) → All (λ p. p ≢ dot_dot) ps → All (Lacks slash) ps → All IsPlain (kept ps)
unfolding kept
All-IsPlain-kept [] h k = tt
All-IsPlain-kept ([] ∷ ps) (_, h) (_, k) = All-IsPlain-kept ps h k
All-IsPlain-kept ((c ∷ p) ∷ ps) (hp, h) (kp, k) = elim (Bool-cases (text_eq (c ∷ p) one_dot)) [
  | inl e ↦ rw e (All-IsPlain-kept ps h k)
  | inr e ↦ rw e (
    record {
      not_empty = λ q. cc;
      no_slash = kp;
      not_dot = λ q. let t = eq→text_eq (c ∷ p) one_dot q in cc;
      not_dot_dot = hp;
    },
    All-IsPlain-kept ps h k,
  )
]

-- They are plain names.
pub kept-split-IsPlain : (x : Text) → HasNoParent x → All IsPlain (kept (split x slash))
kept-split-IsPlain x h = All-IsPlain-kept (split x slash) h (All-Lacks-split x)

no_parents : (ps : List Text) → All IsPlain ps → All (λ p. p ≢ dot_dot) ps
no_parents [] h = tt
no_parents (p ∷ ps) (hp, h) = (hp.not_dot_dot, no_parents ps h)

kept-plain : (ps : List Text) → All IsPlain ps → kept ps ≡ ps
unfolding kept
kept-plain [] h = refl
kept-plain ([] ∷ ps) (hp, h) = absurd (hp.not_empty refl)
kept-plain ((c ∷ p) ∷ ps) (hp, h) =
    rw (ne→text_eq_false (c ∷ p) one_dot hp.not_dot, kept-plain ps h) refl

rel_words-below : (ps qs : List Text) → rel_words ps (ps ++ qs) ≡ ok (join qs slash)
unfolding rel_words
rel_words-below [] qs = refl
rel_words-below (p ∷ ps) qs = rw (text_eq_refl p) (rel_words-below ps qs)

split_root :
    (p : Text) (ps : List Text)
    → All IsPlain (p ∷ ps)
    → split (root_path (p ∷ ps)) slash ≡ [] ∷ p ∷ ps
unfolding split
split_root p ps h = ap (λ t. [] ∷ t) (split-join-plain p ps h)

root_path-ne_root :
    (p : Text) (ps : List Text) → All IsPlain (p ∷ ps) → root_path (p ∷ ps) ≢ slash ∷ []
unfolding split
root_path-ne_root p ps h e =
    h.0.not_empty (let f = ap (λ t. split t slash) e in let g = split_root p ps h in cc)

root_words :
    (p : Text) (ps : List Text) → All IsPlain (p ∷ ps) → words_of (root_path (p ∷ ps)) ≡ [] ∷ p ∷ ps
unfolding words_of
root_words p ps h =
    rw (ne→text_eq_false (root_path (p ∷ ps)) (slash ∷ []) (root_path-ne_root p ps h))
      (split_root p ps h)

root_base_words :
    (p : Text) (ps : List Text)
    → All IsPlain (p ∷ ps)
    → base_words (root_path (p ∷ ps)) ≡ [] ∷ p ∷ ps
unfolding base_words text_eq
root_base_words p ps h = root_words p ps h

root_path-ne :
    (p : Text) (ps : List Text) (q : Text) (qs : List Text)
    → All IsPlain (p ∷ ps)
    → All IsPlain (q ∷ qs)
    → root_path (p ∷ ps ++ q ∷ qs) ≢ root_path (p ∷ ps)
root_path-ne p ps q qs h k e =
    let both = All-append IsPlain (p ∷ ps) (q ∷ qs) h k in
    let f = ap (λ t. length (split t slash)) e in
    let a = ap length (split_root p (ps ++ q ∷ qs) both) in
    let b = ap length (split_root p ps h) in
    let n = length-append ps (q ∷ qs) in omega (arith, f, a, b, n)

rel_clean_rooted :
    (s t : Text)
    → (slash ∷ t) ≢ (slash ∷ s)
    → rel_clean (slash ∷ s) (slash ∷ t) ≡ rel_words (base_words (slash ∷ s)) (words_of (slash ∷ t))
unfolding rel_clean is_abs
rel_clean_rooted s t h = rw (ne→text_eq_false (slash ∷ t) (slash ∷ s) h) refl

-- What lies below a directory is named by the elements from there.
pub rel_root :
    (p : Text) (ps : List Text) (q : Text) (qs : List Text)
    → All IsPlain (p ∷ ps)
    → All IsPlain (q ∷ qs)
    → rel (root_path (p ∷ ps)) (root_path (p ∷ ps ++ q ∷ qs)) ≡ ok (join (q ∷ qs) slash)
unfolding rel
rel_root p ps q qs h k =
    let both = All-append IsPlain (p ∷ ps) (q ∷ qs) h k in
    let target = root_path (p ∷ ps ++ q ∷ qs) in
    ap (λ b. rel_clean b (clean target)) (clean_root-plain p ps h)
    ∙ ap (rel_clean (root_path (p ∷ ps))) (clean_root-plain p (ps ++ q ∷ qs) both)
    ∙ rel_clean_rooted (join (p ∷ ps) slash) (join (p ∷ ps ++ q ∷ qs) slash)
        (root_path-ne p ps q qs h k)
    ∙ ap (λ b. rel_words b (words_of (root_path (p ∷ ps ++ q ∷ qs)))) (root_base_words p ps h)
    ∙ ap (rel_words ([] ∷ p ∷ ps)) (root_words p (ps ++ q ∷ qs) both)
    ∙ rel_words-below ([] ∷ p ∷ ps) (q ∷ qs)

pub rel_self : (s : Text) → rel s s ≡ ok one_dot
unfolding rel rel_clean
rel_self s = rw (text_eq_refl (clean s)) refl

-- Plain elements name no parent directory, and all of them are kept.
pub HasNoParent-join :
    (q : Text) (qs : List Text) → All IsPlain (q ∷ qs) → HasNoParent (join (q ∷ qs) slash)
HasNoParent-join q qs h = rw (split-join-plain q qs h) (no_parents (q ∷ qs) h)

pub kept-join-plain :
    (q : Text) (qs : List Text)
    → All IsPlain (q ∷ qs)
    → kept (split (join (q ∷ qs) slash) slash) ≡ q ∷ qs
kept-join-plain q qs h = rw (split-join-plain q qs h) (kept-plain (q ∷ qs) h)

pub has_prefix-join :
    (q : Text) (qs below : List Text)
    → has_prefix (join (q ∷ qs ++ below) slash) (join (q ∷ qs) slash) ≡ true
unfolding join
has_prefix-join q [] [] = ap (λ t. has_prefix t q) (sym (append-nil q)) ∙ has_prefix-append q []
has_prefix-join q [] (b ∷ below) = has_prefix-append q (slash ∷ join (b ∷ below) slash)
has_prefix-join q (r ∷ qs) below = simp prefix_laws (has_prefix-join r qs below)

pub clean_root : (ps : List Text) → All IsPlain ps → clean (root_path ps) ≡ root_path ps
unfolding clean split resolve clean_step rev_onto join
clean_root [] h = refl
clean_root (p ∷ ps) h = clean_root-plain p ps h
