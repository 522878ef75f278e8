-- ===== src/GoStd/CleanPath.antt =====
-- Package path (and path/filepath on Unix): `Clean` and `Join`.
pub mod Plain
use zipstash.Base.{
  ℕ, zero, suc, ◌≡◌, ◌≢◌, refl, ap, sym, ◌∙◌, Bool, true, false, not, ◌&&◌, ◌||◌, List, [], ◌∷◌,
  ◌++◌, append_assoc, append-nil, arith, ◌==◌, if◌then◌else◌, Text, Lacks, All, text_eq,
}
use zipstash.GoStd.Strings.{join, split}

abbrev pub slash : ℕ
slash = 47

abbrev pub dot : ℕ
dot = 46

abbrev pub dot_dot : Text
dot_dot = 46 ∷ 46 ∷ []

abbrev pub one_dot : Text
one_dot = 46 ∷ []

unfoldable pub go_up : Bool → List Text → List Text
go_up true [] = []
go_up false [] = dot_dot ∷ []
go_up rooted (top ∷ stack) = if text_eq top dot_dot then dot_dot ∷ top ∷ stack else stack

-- One element of the path; the elements kept so far, the last one first.
unfoldable pub clean_step : Bool → List Text → Text → List Text
unfolding go_up
clean_step rooted stack [] = stack
clean_step rooted stack (c ∷ p) =
    if text_eq (c ∷ p) one_dot
    then stack
    else if text_eq (c ∷ p) dot_dot
    then go_up rooted stack
    else (c ∷ p) ∷ stack

unfoldable pub resolve : Bool → List Text → List Text → List Text
resolve rooted stack [] = stack
resolve rooted stack (p ∷ ps) = resolve rooted (clean_step rooted stack p) ps

unfoldable pub rev_onto : List Text → List Text → List Text
rev_onto [] out = out
rev_onto (p ∷ ps) out = rev_onto ps (p ∷ out)

unfoldable pub or_dot : Text → Text
or_dot [] = one_dot
or_dot (c ∷ s) = c ∷ s

-- path.Clean: "." for the empty path; elements "" and "." go, and ".." takes its predecessor along.
unfoldable pub clean : Text → Text
unfolding resolve rev_onto or_dot
clean [] = one_dot
clean (c ∷ s) =
    if c == slash
    then slash ∷ join (rev_onto (resolve true [] (split s slash)) []) slash
    else or_dot (join (rev_onto (resolve false [] (split (c ∷ s) slash)) []) slash)

-- the loop of path.Join over its elements
unfoldable pub join_elements : List Text → Text → Text
join_elements [] buf = buf
join_elements (e ∷ es) [] = join_elements es e
join_elements (e ∷ es) (b ∷ buf) = join_elements es ((b ∷ buf) ++ slash ∷ e)

unfoldable pub clean_nonempty : Text → Text
clean_nonempty [] = []
clean_nonempty (c ∷ s) = clean (c ∷ s)

-- path.Join
unfoldable pub join_path : List Text → Text
unfolding join_elements clean_nonempty
join_path elements = clean_nonempty (join_elements elements [])
