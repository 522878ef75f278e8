-- ===== src/GoStd/FilePath.antt =====
-- Package path/filepath on Unix: `IsAbs`, `Abs` and `Rel`. `Clean` and `Join` are those of
-- GoStd/CleanPath.
pub mod Below
use zipstash.Base.{
  Bool, true, false, List, [], ◌∷◌, ◌++◌, map, ◌==◌, if◌then◌else◌, Text, text_eq, Result, ok, err,
  message, crash,
}
use zipstash.GoStd.Strings.{join, split}
use zipstash.GoStd.CleanPath.{slash, one_dot, dot_dot, clean, join_path}

unfoldable pub is_abs : Text → Bool
is_abs [] = false
is_abs (c ∷ _) = c == slash

-- filepath.Abs: the working directory is asked for relative paths alone.
unfoldable pub abs_path : Result Text → Text → Result Text
unfolding is_abs
abs_path (ok dir) path = if is_abs path then ok (clean path) else ok (join_path (dir ∷ path ∷ []))
abs_path (err e) path = if is_abs path then ok (clean path) else err e
abs_path (crash c) path = if is_abs path then ok (clean path) else crash c

-- the elements that `Rel` walks of a clean path
unfoldable pub words_of : Text → List Text
words_of path = if text_eq path (slash ∷ []) then [] ∷ [] else split path slash

-- "." is the empty base
unfoldable pub base_words : Text → List Text
unfolding words_of
base_words base = if text_eq base one_dot then [] else words_of base

abbrev cannot_make : Result Text
cannot_make = err (message "Rel: can't make the target relative to the base")

-- The walk to the first elements that differ, and one ".." for each element of the base from there.
unfoldable pub rel_words : List Text → List Text → Result Text
rel_words [] ts = ok (join ts slash)
rel_words (b ∷ bs) [] = ok (join (map (λ _. dot_dot) (b ∷ bs)) slash)
rel_words (b ∷ bs) (t ∷ ts) =
    let rest = rel_words bs ts in
    if text_eq b t
    then rest
    else if text_eq b dot_dot
    then cannot_make
    else ok (join (map (λ _. dot_dot) (b ∷ bs) ++ t ∷ ts) slash)

rel_clean : Text → Text → Result Text
unfolding base_words is_abs
rel_clean base targ = if text_eq targ base then ok one_dot else elim (is_abs base) [
  | true ↦ if is_abs targ then rel_words (base_words base) (words_of targ) else cannot_make
  | false ↦ if is_abs targ then cannot_make else rel_words (base_words base) (words_of targ)
]

-- filepath.Rel
unfoldable pub rel : Text → Text → Result Text
unfolding rel_clean rel_words
rel basepath targpath = rel_clean (clean basepath) (clean targpath)
