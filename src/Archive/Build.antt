-- ===== src/Archive/Build.antt =====
-- BuildArchive of pkg/archive/create.go. The zip format is quickzip's: a client of the checksummer.
pub mod Sums
use zipstash.Base.{
  ℕ, List, [], ◌∷◌, ◌++◌, Text, codes, Result, ok, err, crash, Err, wrap, Io, pure, reads, on_error,
  ◌>>=◌,
}
use zipstash.Archive.{Env, Mapping, ArchiveInfo, paths_to_mappings, is_under_home}
use zipstash.Archive.Checksum
use zipstash.Archive.Checksum.{
  Files, Visit, Stat, exists, missing, stat_failed, Building, new_checksum, write, sum,
}

-- Code that writes: it ends, or writes and goes on by the number of bytes or the error it is told.
pub data Output (A : Type 0) : Type 0 where
  done : Result A → Output A
  put : Text → (ℕ → Output A) → (Err → Output A) → Output A

module _ (F : Files) where
  -- `archive` and `close` of an archiver read files and write to the checksummer alone.
  pub record Quickzip : Type 1 where
    pub Archiver : Type 0
    pub new_archiver : Result Archiver
    pub archive : Archiver → Text → List Visit → F.World → Output Archiver
    pub close : Archiver → F.World → Output (Unit {0})

  unfoldable pub resume :
      {A : Type 0}
      → Result ℕ × Building F
      → (ℕ → Io (Building F) A)
      → (Err → Io (Building F) A)
      → Result A × Building F
  resume (ok n, b) k f = k n b
  resume (err e, b) k f = f e b
  resume (crash c, b) k f = (crash c, b)

  unfoldable pub run_output : {A : Type 0} → Output A → Io (Building F) A
  run_output (done r) b = (r, b)
  run_output (put p k f) b = resume (write F p b) (λ n. run_output (k n)) (λ e. run_output (f e))

  -- The function keeps every visit and never fails, so Walk ends after the last visit.
  unfoldable pub walk : List Visit → Result (List Visit)
  walk [] = ok []
  walk (v ∷ vs) = elim (walk vs) [ ok files ↦ ok (v ∷ files) | err e ↦ err e | crash c ↦ crash c ]

  unfoldable pub finished : ℕ → Io (Building F) ArchiveInfo
  finished size b =
      (ok (record { archive_path = b.checksum.f; size = size; sha256sum = sum F b.checksum }), b)

  -- the file behind a new checksummer
  unfoldable pub with_checksum : Text → Io (Building F) ArchiveInfo → Io F.World ArchiveInfo
  with_checksum file m w =
      let (r, b) = m (record { world = w; checksum = new_checksum file }) in (r, b.world)

  module _ (env : Env) (Q : Quickzip) where
    unfoldable pub add_files : Q.Archiver → Mapping → Io (Building F) Q.Archiver
    add_files arc m = do
      _ ←
          on_error (wrap "failed directory outside home directory")
            (reads (λ _. is_under_home env m.resolved_path))
      files ←
          on_error (wrap "failed to walk path")
            (reads (λ b. walk (F.visits m.resolved_path b.world)))
      on_error (wrap "failed to archive path")
          (λ b. run_output (Q.archive arc m.chroot files b.world) b)

    -- A path that does not exist is left out.
    unfoldable pub add_existing : Q.Archiver → Mapping → Stat → Io (Building F) Q.Archiver
    add_existing arc m exists = add_files arc m
    add_existing arc m missing = pure arc
    add_existing arc m (stat_failed e) = λ b. (err (wrap "failed to stat file" e), b)

    unfoldable pub add_mappings : Q.Archiver → List Mapping → Io (Building F) Q.Archiver
    add_mappings arc [] = pure arc
    add_mappings arc (m ∷ ms) = do
      arc' ← λ b. add_existing arc m (F.stat m.resolved_path b.world) b
      add_mappings arc' ms

    unfoldable pub fill : Q.Archiver → List Mapping → Io (Building F) ArchiveInfo
    fill arc mappings = do
      arc' ← add_mappings arc mappings
      _ ← on_error (wrap "failed to close archive") (λ b. run_output (Q.close arc' b.world) b)
      size ←
          on_error (wrap "failed to stat archive file")
            (reads (λ b. F.stat_size b.checksum.f b.world))
      finished size

    unfoldable pub build_archive : List Text → Text → Io F.World ArchiveInfo
    build_archive paths key = do
      file ← on_error (wrap "failed to create archive file") (F.create_temp (key ++ codes "-*.zip"))
      arc ← on_error (wrap "failed to create archiver") (reads (λ _. Q.new_archiver))
      mappings ← on_error (wrap "failed to get mappings") (reads (λ _. paths_to_mappings env paths))
      with_checksum file (fill arc mappings)
