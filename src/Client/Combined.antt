-- ===== src/Client/Combined.antt =====
-- What the parts are joined to, and that cleaning leaves it alone.
use zipstash.Base.{
  ℕ, ◌+◌, ◌<◌, ◌%◌, ◌≡◌, refl, ap, sym, ◌∙◌, List, [], ◌∷◌, ◌++◌, append-nil, append_assoc, arith,
  Text, Bool, true, false, Bool-cases, inl, inr, length, length-append, ok, Io, run_bind, run_call,
  run_lookup, run_pure, pure, two_64,
}
use zipstash.Transfer.Download.{DownloadedFile}
use zipstash.Client.Restore.{combine_parts}
use zipstash.Client.RestoreCmd.{
  RestoreServices, DirEntry, append_to_file_and_remove, append_parts, combine_files, make_writable,
  clean_path, clean_paths, clean_if_asked,
}

-- What files are relied on for, an open one (`zip`) and others: a new file is empty, a copy appends
-- all of a part and counts it, and what is done to other files leaves this one alone.
pub record IsSteady (s : RestoreServices) : Type 0 where
  pub creates :
      (zip : Text) (w w' : s.World) → s.create_temp w ≡ (ok zip, w') → s.content zip w' ≡ []
  pub opens :
      (zip : Text) (d : DownloadedFile) (w : s.World)
      → s.content zip (s.open_part d w).1 ≡ s.content zip w
  pub copies :
      (zip : Text) (d : DownloadedFile) (n : ℕ) (w w' : s.World)
      → s.copy_part zip d w ≡ (ok n, w')
      → (s.content zip w' ≡ s.content zip w ++ d.content) × (n ≡ length d.content)
  pub removes :
      (zip : Text) (d : DownloadedFile) (w : s.World)
      → s.content zip (s.remove_part d w) ≡ s.content zip w
  pub chmods :
      (zip path : Text) (mode : ℕ) (w : s.World)
      → s.content zip (s.chmod path mode w).1 ≡ s.content zip w
  pub walks :
      (zip dir : Text) (f : DirEntry → Io s.World (Unit {0}))
      → ((e : DirEntry) (w : s.World) → s.content zip (f e w).1 ≡ s.content zip w)
      → (w : s.World) → s.content zip (s.walk_dir dir f w).1 ≡ s.content zip w
  pub removes_all :
      (zip dir : Text) (w : s.World) → s.content zip (s.remove_all dir w).1 ≡ s.content zip w

module _ (s : RestoreServices) (L : IsSteady s) where
  appended :
      (zip : Text) (d : DownloadedFile) (n : ℕ) (w : s.World) {w' : s.World}
      → append_to_file_and_remove s zip d w ≡ (ok n, w')
      → (s.content zip w' ≡ s.content zip w ++ d.content) × (n ≡ length d.content)
  unfolding append_to_file_and_remove
  appended zip d n w {w'} h = run_call _ _ _ h λ _ v e1 h1. run_call _ _ _ h1 λ m u e2 h2.
      let (grown, count) = L.copies zip d m v u e2 in
      let opened : s.content zip v ≡ s.content zip w =
        ap (λ x. s.content zip x.1) (sym e1) ∙ L.opens zip d w in
      let still : s.remove_part d u ≡ w' = ap (λ x. x.1) h2 in
      (
        ap (s.content zip) (sym still)
            ∙ L.removes zip d u
            ∙ grown
            ∙ ap (λ t. t ++ d.content) opened,
        cc,
      )

  -- The length is counted as an `int64`.
  appended_all :
      (zip : Text) (len : ℕ) (ds : List DownloadedFile) (n : ℕ) (w : s.World) {w' : s.World}
      → len < two_64
      → append_parts s zip len ds w ≡ (ok n, w')
      → (s.content zip w' ≡ s.content zip w ++ combine_parts ds)
        × (n ≡ (len + length (combine_parts ds)) % two_64)
  unfolding append_parts combine_parts
  appended_all zip len [] n w small h =
      let (e, still) = run_pure len h in
      (rw (append-nil (s.content zip w)) (ap (s.content zip) (sym still)), omega (arith, e))
  appended_all zip len (d ∷ ds) n w small h = run_call _ _ _ h λ m v e1 h1.
      let (grown, count) = appended zip d m w e1 in
      let (rest, total) = appended_all zip ((len + m) % two_64) ds n v (omega arith) h1 in
      (
        rest
            ∙ ap (λ t. t ++ combine_parts ds) grown
            ∙ append_assoc (s.content zip w) d.content (combine_parts ds),
        omega (arith, count, total, length-append d.content (combine_parts ds)),
      )

  pub combined :
      (ds : List DownloadedFile) (zip : Text) (len : ℕ) (w : s.World) {w' : s.World}
      → combine_files s ds w ≡ (ok (zip, len), w')
      → (s.content zip w' ≡ combine_parts ds) × (len ≡ length (combine_parts ds) % two_64)
  unfolding combine_files
  combined ds zip len w {w'} h = run_call _ _ _ h λ zip1 v e1 h1. run_bind _ _ h1 λ len1 u e2 h2.
      let (pair, still) = run_pure (zip1, len1) h2 in
      let same : zip1 ≡ zip = ap (λ x. x.0) pair in
      let count : len1 ≡ len = ap (λ x. x.1) pair in
      let empty : s.content zip v ≡ [] = rw same at (L.creates zip1 w v e1) in
      let (grown, total) = appended_all zip1 0 ds len1 v (omega arith) e2 in
      (
        ap (s.content zip) (sym still)
            ∙ ap (λ z. s.content z u) (sym same)
            ∙ grown
            ∙ ap (λ z. s.content z v ++ combine_parts ds) same
            ∙ ap (λ t. t ++ combine_parts ds) empty,
        omega (arith, count, total),
      )

  writable_kept :
      (zip : Text) (e : DirEntry) (w : s.World)
      → s.content zip (make_writable s e w).1 ≡ s.content zip w
  unfolding make_writable pure
  writable_kept zip e w = elim (Bool-cases e.failed) [
    | inl f ↦ rw f refl
    | inr f ↦ elim (Bool-cases e.is_dir) [
      | inl d ↦ rw (f, d) (L.chmods zip e.path 0o777 w)
      | inr d ↦ rw (f, d) refl
    ]
  ]

  cleaned_path :
      (zip dir : Text) (w : s.World) {w' : s.World}
      → clean_path s dir w ≡ (ok tt, w')
      → s.content zip w' ≡ s.content zip w
  unfolding clean_path
  cleaned_path zip dir w h = run_bind _ _ h λ _ v e1 h1.
      ap (λ x. s.content zip x.1) (sym h1)
      ∙ L.removes_all zip dir v
      ∙ ap (λ x. s.content zip x.1) (sym e1)
      ∙ L.walks zip dir (make_writable s) (writable_kept zip) w

  cleaned_paths :
      (zip : Text) (paths : List Text) (w : s.World) {w' : s.World}
      → clean_paths s paths w ≡ (ok tt, w')
      → s.content zip w' ≡ s.content zip w
  unfolding clean_paths
  cleaned_paths zip [] w h = ap (s.content zip) (sym (run_pure tt h).1)
  cleaned_paths zip (p ∷ ps) w h =
      run_lookup _ _ _ h λ dir _ h1.
        run_call _ _ _ h1 λ _ v e h2. cleaned_paths zip ps v h2 ∙ cleaned_path zip dir w e

  pub cleaned :
      (zip : Text) (asked : Bool) (paths : List Text) (w : s.World) {w' : s.World}
      → clean_if_asked s asked paths w ≡ (ok tt, w')
      → s.content zip w' ≡ s.content zip w
  unfolding clean_if_asked
  cleaned zip true paths w h = cleaned_paths zip paths w h
  cleaned zip false paths w h = ap (s.content zip) (sym (run_pure tt h).1)
