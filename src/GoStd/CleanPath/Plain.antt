-- ===== src/GoStd/CleanPath/Plain.antt =====
-- What `path.Join` does with elements that are plain names.
use zipstash.Base.{
  ℕ, ◌≡◌, ◌≢◌, refl, ap, sym, ◌∙◌, Bool, false, List, [], ◌∷◌, ◌++◌, append_assoc, append-nil,
  arith, if◌then◌else◌, Text, Lacks, All, text_eq, text_eq→eq,
}
use zipstash.GoStd.Strings.{join, split, split-append_any, split_of_Lacks}
use zipstash.GoStd.CleanPath.{
  clean_nonempty, slash, one_dot, dot_dot, clean_step, resolve, rev_onto, or_dot, clean,
  join_elements, join_path,
}

-- A file name that `Clean` keeps: not empty, no slash, and neither "." nor "..".
pub record IsPlain (p : Text) : Type 0 where
  pub not_empty : p ≢ []
  pub no_slash : Lacks slash p
  pub not_dot : p ≢ one_dot
  pub not_dot_dot : p ≢ dot_dot

clean_step-plain :
    (rooted : Bool) (stack : List Text) (p : Text)
    → IsPlain p
    → clean_step rooted stack p ≡ p ∷ stack
unfolding clean_step
clean_step-plain rooted stack [] h = absurd (h.not_empty refl)
clean_step-plain rooted stack (c ∷ p) h =
    ground (arith, h.not_dot, h.not_dot_dot, text_eq→eq (c ∷ p) one_dot, text_eq→eq (c ∷ p) dot_dot)

pub resolve-append :
    (rooted : Bool) (ps qs stack : List Text)
    → resolve rooted stack (ps ++ qs) ≡ resolve rooted (resolve rooted stack ps) qs
unfolding resolve
resolve-append rooted [] qs stack = refl
resolve-append rooted (p ∷ ps) qs stack = resolve-append rooted ps qs _

pub resolve-plain :
    (rooted : Bool) (ps stack : List Text)
    → All IsPlain ps
    → resolve rooted stack ps ≡ rev_onto ps stack
unfolding resolve rev_onto
resolve-plain rooted [] stack h = refl
resolve-plain rooted (p ∷ ps) stack (hp, h) =
    rw (clean_step-plain rooted stack p hp) (resolve-plain rooted ps (p ∷ stack) h)

pub rev_onto-rev_onto :
    (ps st out : List Text) → rev_onto (rev_onto ps st) out ≡ rev_onto st (ps ++ out)
unfolding rev_onto
rev_onto-rev_onto [] st out = refl
rev_onto-rev_onto (p ∷ ps) st out = rev_onto-rev_onto ps (p ∷ st) out

-- The elements of all the texts, cut at slashes.
unfoldable pub split_all : List Text → List Text
split_all [] = []
split_all (p ∷ ps) = split p slash ++ split_all ps

pub split_all-plain : (ps : List Text) → All IsPlain ps → split_all ps ≡ ps
unfolding split_all
split_all-plain [] h = refl
split_all-plain (p ∷ ps) (hp, h) = rw (split_of_Lacks p slash hp.no_slash, split_all-plain ps h)

pub split_all-append : (ps qs : List Text) → split_all (ps ++ qs) ≡ split_all ps ++ split_all qs
unfolding split_all
split_all-append [] qs = refl
split_all-append (p ∷ ps) qs = simp (split_all-append ps qs, append_assoc)

split-join_elements :
    (ps : List Text) (c : ℕ) (buf : Text)
    → split (join_elements ps (c ∷ buf)) slash ≡ split (c ∷ buf) slash ++ split_all ps
unfolding join_elements split_all
split-join_elements [] c buf = sym (append-nil _)
split-join_elements (p ∷ ps) c buf =
    split-join_elements ps c (buf ++ slash ∷ p)
    ∙ simp (split-append_any (c ∷ buf) p slash, append_assoc)

join_elements-head :
    (ps : List Text) (c : ℕ) (buf : Text) → (rest : Text) × (join_elements ps (c ∷ buf) ≡ c ∷ rest)
unfolding join_elements
join_elements-head [] c buf = (buf, refl)
join_elements-head (p ∷ ps) c buf = join_elements-head ps c (buf ++ slash ∷ p)

clean_relative :
    (c : ℕ) (s : Text)
    → c ≢ slash
    → clean (c ∷ s) ≡ or_dot (join (rev_onto (resolve false [] (split (c ∷ s) slash)) []) slash)
unfolding clean
clean_relative c s h = ground arith

-- The elements that are left, joined by slashes.
unfoldable pub rebuilt : List Text → Text
rebuilt ps = or_dot (join (rev_onto (resolve false [] ps) []) slash)

clean_nonempty-rebuilt :
    (t : Text) (c : ℕ) (s : Text)
    → t ≡ c ∷ s
    → c ≢ slash
    → clean_nonempty t ≡ rebuilt (split t slash)
unfolding clean_nonempty rebuilt
clean_nonempty-rebuilt t c s e h = rw e (clean_relative c s h)

-- Below a plain first element, `Join` resolves the elements of all its arguments.
pub join_path-rebuilt :
    (p : Text) (ps : List Text) → IsPlain p → join_path (p ∷ ps) ≡ rebuilt (split_all (p ∷ ps))
unfolding join_path split_all
join_path-rebuilt [] ps h = absurd (h.not_empty refl)
join_path-rebuilt (c ∷ p) ps h =
    let (rest, e) = join_elements-head ps c p in
    clean_nonempty-rebuilt _ c rest e h.no_slash.0 ∙ ap rebuilt (split-join_elements ps c p)

or_dot-join :
    (p : Text) (ps : List Text) → IsPlain p → or_dot (join (p ∷ ps) slash) ≡ join (p ∷ ps) slash
unfolding or_dot join
or_dot-join [] ps h = absurd (h.not_empty refl)
or_dot-join (c ∷ p) [] h = refl
or_dot-join (c ∷ p) (q ∷ ps) h = refl

-- What is left of a resolution, read in order.
pub rebuilt_of_resolve :
    (p : Text) (ps qs : List Text)
    → IsPlain p
    → resolve false [] ps ≡ rev_onto (p ∷ qs) []
    → rebuilt ps ≡ join (p ∷ qs) slash
unfolding rebuilt rev_onto
rebuilt_of_resolve p ps qs h e =
    rw (e, rev_onto-rev_onto qs (p ∷ []) []) (rw append-nil (or_dot-join p qs h))

pub rebuilt-plain :
    (p : Text) (ps : List Text) → All IsPlain (p ∷ ps) → rebuilt (p ∷ ps) ≡ join (p ∷ ps) slash
rebuilt-plain p ps h = rebuilt_of_resolve p (p ∷ ps) ps h.0 (resolve-plain false (p ∷ ps) [] h)

-- Plain elements are joined by slashes and stay as they are.
pub join_path-plain :
    (p : Text) (ps : List Text) → All IsPlain (p ∷ ps) → join_path (p ∷ ps) ≡ join (p ∷ ps) slash
join_path-plain p ps h =
    join_path-rebuilt p ps h.0 ∙ ap rebuilt (split_all-plain (p ∷ ps) h) ∙ rebuilt-plain p ps h

pub resolve_cons-plain :
    (rooted : Bool) (p : Text) (ps stack : List Text)
    → IsPlain p
    → resolve rooted stack (p ∷ ps) ≡ resolve rooted (p ∷ stack) ps
unfolding resolve
resolve_cons-plain rooted p ps stack h = rw (clean_step-plain rooted stack p h)

go_up-plain :
    (rooted : Bool) (p : Text) (stack : List Text)
    → IsPlain p
    → clean_step rooted (p ∷ stack) dot_dot ≡ stack
unfolding clean_step text_eq
go_up-plain rooted p stack h = ground (arith, h.not_dot_dot, text_eq→eq p dot_dot)

-- ".." takes a plain element before it along.
pub resolve_cons-dot_dot :
    (rooted : Bool) (p : Text) (ps stack : List Text)
    → IsPlain p
    → resolve rooted (p ∷ stack) (dot_dot ∷ ps) ≡ resolve rooted stack ps
unfolding resolve
resolve_cons-dot_dot rooted p ps stack h = rw (go_up-plain rooted p stack h)

-- The elements that `Clean` keeps where none is "..".
unfoldable pub kept : List Text → List Text
kept [] = []
kept ([] ∷ ps) = kept ps
kept ((c ∷ p) ∷ ps) = let rest = kept ps in if text_eq (c ∷ p) one_dot then rest else (c ∷ p) ∷ rest

pub resolve-kept :
    (rooted : Bool) (ps stack : List Text)
    → All (λ p. p ≢ dot_dot) ps
    → resolve rooted stack ps ≡ rev_onto (kept ps) stack
unfolding resolve kept rev_onto clean_step
resolve-kept rooted [] stack h = refl
resolve-kept rooted ([] ∷ ps) stack (hp, h) = resolve-kept rooted ps stack h
resolve-kept rooted ((c ∷ p) ∷ ps) stack (hp, h) = ground (
  arith,
  text_eq→eq (c ∷ p) dot_dot,
  resolve-kept rooted ps stack h,
  resolve-kept rooted ps ((c ∷ p) ∷ stack) h,
)
