-- ===== src/Archive/Build/Sums.antt =====
-- The checksum and the size that BuildArchive returns are those of the file.
use zipstash.Base.{
  ℕ, ◌≡◌, refl, ap, sym, ◌∙◌, List, [], ◌∷◌, ◌++◌, Text, length, Result, ok, err, crash, Err,
  run_bind, run_call, run_lookup, run_pure, on_error-eq-ok, wrap,
}
use mathlib.Core.Path.{subst}
use zipstash.GoStd.Encoding.{hex_encode}
use zipstash.Archive.{Env, Mapping, ArchiveInfo}
use zipstash.Archive.Checksum.{
  Files, Visit, Stat, exists, missing, stat_failed, Building, ChecksumSha256, new_checksum,
  after_write, write, sum,
}
use zipstash.Archive.Build.{
  Output, done, put, Quickzip, resume, run_output, add_files, add_existing, add_mappings, finished,
  fill, with_checksum, build_archive,
}

-- It ends with an error at once.
abbrev pub Fails : {A : Type 0} → Output A → Type 0
Fails (done (ok _)) = ⊥
Fails (done (err _)) = Unit
Fails (done (crash _)) = ⊥
Fails (put _ _ _) = ⊥

-- Told that a write failed, it ends with an error.
abbrev pub Heeds : {A : Type 0} → Output A → Type 0
Heeds (done _) = Unit
Heeds (put p k f) = ((n : ℕ) → Heeds (k n)) × ((e : Err) → Fails (f e))

-- What the files and the archiver are relied on for: a new file is empty, a write without an error
-- appends all it was given, a size is that of the file, and the archiver heeds its writer's errors.
pub record IsReliable (F : Files) (Q : Quickzip F) : Type 0 where
  pub creates :
      (pattern file : Text) (w w' : F.World)
      → F.create_temp pattern w ≡ (ok file, w')
      → F.content file w' ≡ []
  pub appends :
      (file p : Text) (n : ℕ) (w w' : F.World)
      → F.write file p w ≡ (ok n, w')
      → F.content file w' ≡ F.content file w ++ p
  pub sizes :
      (file : Text) (n : ℕ) (w : F.World)
      → F.stat_size file w ≡ ok n
      → n ≡ length (F.content file w)
  pub archive_heeds :
      (arc : Q.Archiver) (chroot : Text) (files : List Visit) (w : F.World)
      → Heeds (Q.archive arc chroot files w)
  pub close_heeds : (arc : Q.Archiver) (w : F.World) → Heeds (Q.close arc w)

module _ (F : Files) (Q : Quickzip F) (L : IsReliable F Q) (file : Text) where
  -- The hash was given what the file holds.
  pub record Tracks (b : Building F) : Type 0 where
    pub name : b.checksum.f ≡ file
    pub same : F.content file b.world ≡ b.checksum.sha256

  Tracks-after_write :
      (p : Text) (c : ChecksumSha256) (w : F.World) (r : Result ℕ × F.World) {n : ℕ}
      {b : Building F}
      → F.write c.f p w ≡ r
      → c.f ≡ file
      → F.content file w ≡ c.sha256
      → after_write F p c r ≡ (ok n, b)
      → Tracks b
  unfolding after_write
  Tracks-after_write p c w (ok m, v) e name same h =
      let grown : F.content file v ≡ F.content file w ++ p = rw name at (L.appends c.f p m w v e) in
      let there : Tracks (record { world = v; checksum = record c { sha256 = c.sha256 ++ p } }) =
        record { name = name; same = grown ∙ ap (λ t. t ++ p) same } in
      rw (ap (λ x. x.1) h) at there
  Tracks-after_write p c w (err x, v) e name same h = cc
  Tracks-after_write p c w (crash x, v) e name same h = cc

  Tracks-write :
      (p : Text) (b : Building F) {n : ℕ} {b' : Building F}
      → Tracks b
      → write F p b ≡ (ok n, b')
      → Tracks b'
  unfolding write
  Tracks-write p b t h =
      Tracks-after_write p b.checksum b.world (F.write b.checksum.f p b.world) refl t.name t.same h

  not-ok-Fails :
      {A : Type 0} (out : Output A) (b : Building F) {a : A} {b' : Building F}
      → Fails out
      → run_output F out b ≡ (ok a, b')
      → ⊥
  unfolding run_output
  not-ok-Fails (done (ok _)) b e h = e
  not-ok-Fails (done (err _)) b e h = cc
  not-ok-Fails (done (crash _)) b e h = e
  not-ok-Fails (put _ _ _) b e h = e

  Tracks-resume :
      {A : Type 0} (p : Text) (k : ℕ → Output A) (f : Err → Output A) (b : Building F)
      (r : Result ℕ × Building F) {a : A} {b' : Building F}
      → Tracks b
      → ((e : Err) → Fails (f e))
      → ((n : ℕ) (v : Building F) → Tracks v → run_output F (k n) v ≡ (ok a, b') → Tracks b')
      → write F p b ≡ r
      → resume F r (λ n. run_output F (k n)) (λ e. run_output F (f e)) ≡ (ok a, b')
      → Tracks b'
  unfolding resume
  Tracks-resume p k f b (ok n, v) t fails next e h = next n v (Tracks-write p b t e) h
  Tracks-resume p k f b (err x, v) t fails next e h = absurd (not-ok-Fails (f x) v (fails x) h)
  Tracks-resume p k f b (crash x, v) t fails next e h = cc

  Tracks-run_output :
      {A : Type 0} (out : Output A) (b : Building F) {a : A} {b' : Building F}
      → Heeds out
      → Tracks b
      → run_output F out b ≡ (ok a, b')
      → Tracks b'
  unfolding run_output
  Tracks-run_output (done r) b heeds t h = rw (ap (λ x. x.1) h) at t
  Tracks-run_output (put p k f) b (go, fails) t h =
      Tracks-resume p k f b (write F p b) t fails
        (λ n v t' h'. Tracks-run_output (k n) v (go n) t' h') refl h

  Tracks-add_existing :
      (env : Env) (arc : Q.Archiver) (m : Mapping) (s : Stat) (b : Building F) {arc' : Q.Archiver}
      {b' : Building F}
      → Tracks b
      → add_existing F env Q arc m s b ≡ (ok arc', b')
      → Tracks b'
  unfolding add_existing add_files
  Tracks-add_existing env arc m exists b t h = run_lookup _ _ _ h λ _ _ h1.
      run_lookup _ _ _ h1 λ files _ h2.
        Tracks-run_output (Q.archive arc m.chroot files b.world) b
          (L.archive_heeds arc m.chroot files b.world) t
          (on_error-eq-ok (wrap "failed to archive path")
            (λ v. run_output F (Q.archive arc m.chroot files v.world) v) h2)
  Tracks-add_existing env arc m missing b t h = rw (run_pure arc h).1 at t
  Tracks-add_existing env arc m (stat_failed e) b t h = cc

  Tracks-add_mappings :
      (env : Env) (arc : Q.Archiver) (ms : List Mapping) (b : Building F) {arc' : Q.Archiver}
      {b' : Building F}
      → Tracks b
      → add_mappings F env Q arc ms b ≡ (ok arc', b')
      → Tracks b'
  unfolding add_mappings
  Tracks-add_mappings env arc [] b t h = rw (run_pure arc h).1 at t
  Tracks-add_mappings env arc (m ∷ ms) b t h = run_bind _ _ h λ arc1 v e h1.
      Tracks-add_mappings env arc1 ms v
        (Tracks-add_existing env arc m (F.stat m.resolved_path b.world) b t e) h1

  -- Of the file itself: its name, its size and the sum of what it holds.
  pub record IsSummed (info : ArchiveInfo) (w : F.World) : Type 0 where
    pub named : info.archive_path ≡ file
    pub sized : info.size ≡ length (F.content file w)
    pub summed : info.sha256sum ≡ hex_encode (F.sha256 (F.content file w))

  abbrev info_of : ℕ → Building F → ArchiveInfo
  info_of size b = record { archive_path = b.checksum.f; size = size; sha256sum = sum F b.checksum }

  IsSummed-finished :
      (size : ℕ) (b : Building F) {info : ArchiveInfo} {b' : Building F}
      → Tracks b
      → size ≡ length (F.content file b.world)
      → finished F size b ≡ (ok info, b')
      → IsSummed info b'.world
  unfolding finished sum
  IsSummed-finished size b {info} {b'} t e h =
      let still : b ≡ b' = ap (λ x. x.1) h in
      let there : IsSummed (info_of size b) b.world = record {
        named = t.name;
        sized = e;
        summed = ap (λ s. hex_encode (F.sha256 s)) (sym t.same);
      } in
      let made : ok (info_of size b) ≡ ok info = ap (λ x. x.0) h in
      let same : info_of size b ≡ info = cc in
      subst (λ k. IsSummed k b'.world) same
        (subst (λ v. IsSummed (info_of size b) v.world) still there)

  IsSummed-fill :
      (env : Env) (arc : Q.Archiver) (ms : List Mapping) (b : Building F) {info : ArchiveInfo}
      {b' : Building F}
      → Tracks b
      → fill F env Q arc ms b ≡ (ok info, b')
      → IsSummed info b'.world
  unfolding fill
  IsSummed-fill env arc ms b t h = run_bind _ _ h λ arc1 v e h1.
      let t1 = Tracks-add_mappings env arc ms b t e in
      run_call _ _ _ h1 λ _ u e1 h2.
        let t2 = Tracks-run_output (Q.close arc1 v.world) v (L.close_heeds arc1 v.world) t1 e1 in
        run_lookup _ _ _ h2 λ size stat h3.
          IsSummed-finished size u t2 (L.sizes file size u.world (rw t2.name at stat)) h3

module _ (F : Files) (Q : Quickzip F) (L : IsReliable F Q) (env : Env) where
  abbrev start : Text → F.World → Building F
  start file w = record { world = w; checksum = record { f = file; sha256 = [] } }

  IsSummed-with_checksum :
      (arc : Q.Archiver) (ms : List Mapping) (file : Text) (w : F.World)
      → F.content file w ≡ []
      → {info : ArchiveInfo} {w' : F.World}
      → with_checksum F file (fill F env Q arc ms) w ≡ (ok info, w')
      → IsSummed F Q L file info w'
  unfolding with_checksum new_checksum
  IsSummed-with_checksum arc ms file w empty {info} {w'} h =
      let b = start file w in
      let r = fill F env Q arc ms b in
      let e : r.0 ≡ ok info = ap (λ x. x.0) h in
      let still : r.1.world ≡ w' = ap (λ x. x.1) h in
      let t : Tracks F Q L file b = record { name = refl; same = empty } in
      subst (IsSummed F Q L file info) still
        (IsSummed-fill F Q L file env arc ms b {b' = r.1} t (λ i. (e i, r.1)))

  -- The size and the checksum that BuildArchive returns are those of the file that it names, as the
  -- archiver left it, whatever paths it was given: the checksum is the SHA-256 of the bytes the file
  -- holds, if the archiver heeds the errors of its writer.
  pub build_archive-IsSummed :
      (paths : List Text) (key : Text) (w : F.World) {info : ArchiveInfo} {w' : F.World}
      → build_archive F env Q paths key w ≡ (ok info, w')
      → (info.size ≡ length (F.content info.archive_path w'))
        × (info.sha256sum ≡ hex_encode (F.sha256 (F.content info.archive_path w')))
  unfolding build_archive
  build_archive-IsSummed paths key w {info} {w'} h = run_call _ _ _ h λ file v made h1.
      run_lookup _ _ _ h1 λ arc _ h2. run_lookup _ _ _ h2 λ ms _ h3.
        let s = IsSummed-with_checksum arc ms file v (L.creates _ file w v made) h3 in
        (
          s.sized ∙ ap (λ f. length (F.content f w')) (sym s.named),
          s.summed ∙ ap (λ f. hex_encode (F.sha256 (F.content f w'))) (sym s.named),
        )
