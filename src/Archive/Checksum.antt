-- ===== src/Archive/Checksum.antt =====
-- ChecksumSHA256 of pkg/archive/archive.go: a writer that hashes what it writes.
use zipstash.Base.{ℕ, List, [], ◌++◌, Text, Option, Result, ok, err, crash, Err, Io}
use zipstash.GoStd.Encoding.{hex_encode}

-- os.Stat, as far as BuildArchive tells its outcomes apart
pub data Stat : Type 0 where
  exists missing : Stat
  stat_failed : Err → Stat

-- One call of the function that filepath.Walk is given.
pub record Visit : Type 0 where
  pub filename : Text
  pub failure : Option Err

-- Package os and crypto/sha256, in the world of the files. `content` is what a file holds.
pub record Files : Type 1 where
  pub World : Type 0
  pub content : Text → World → Text
  pub create_temp : Text → Io World Text
  pub write : Text → Text → Io World ℕ
  pub stat : Text → World → Stat
  pub stat_size : Text → World → Result ℕ
  pub visits : Text → World → List Visit
  pub sha256 : Text → Text

-- `sha256` is what the hash has been given.
pub record ChecksumSha256 : Type 0 where
  pub f : Text
  pub sha256 : Text

unfoldable pub new_checksum : Text → ChecksumSha256
new_checksum f = record { f = f; sha256 = [] }

module _ (F : Files) where
  -- the world with the checksummer in it
  pub record Building : Type 0 where
    pub world : F.World
    pub checksum : ChecksumSha256

  unfoldable pub after_write : Text → ChecksumSha256 → Result ℕ × F.World → Result ℕ × Building
  after_write p c (ok n, w) =
      (ok n, record { world = w; checksum = record c { sha256 = c.sha256 ++ p } })
  after_write p c (err e, w) = (err e, record { world = w; checksum = c })
  after_write p c (crash x, w) = (crash x, record { world = w; checksum = c })

  unfoldable pub write : Text → Io Building ℕ
  write p b = after_write p b.checksum (F.write b.checksum.f p b.world)

  unfoldable pub sum : ChecksumSha256 → Text
  sum c = hex_encode (F.sha256 c.sha256)
