-- ===== src/Repo/Migration.antt =====
-- node/repo/migrate.go: what a migration does to the files.
use sophon_miner.Config.{MinerConfig, OldMinerConfig, to_miner_config}
use sophon_miner.Datastore.Memory.{found}
use sophon_miner.Prelude.{
  Bool, Result, arith, err, false, ok, refl, some, sym, true, wrapped_ok, ◌∙◌, ◌≡◌, ◌≢◌,
}
use sophon_miner.Prelude.Int.{ltb_ℤ, pos}
use sophon_miner.Repo.{
  ConfigCodec, Disk, FilePath, OsError, RepoError, build_version, config_error, exist, fs_version,
  load_config_from_disk, migrate, migrate_from, not_exist, old_config, os_error, os_failed, parsed,
  set_file, set_version, upgrade_from, version180_upgrade,
}
use sophon_miner.Repo.Changes.{set_config-Changed, set_file_other}
use sophon_miner.Types.{Bytes}

module _ {D : Type 0} (disk : Disk D) (codec : ConfigCodec) (default : MinerConfig) where
  set_file_view :
      (file : FilePath) (is_open : Bool) (d : D) (b : Bytes)
      → (set_file disk codec default file is_open d b).0 ≡ ok tt
      → disk.view (set_file disk codec default file is_open d b).1 file ≡ some b
  unfolding set_file
  set_file_view file true d b h =
      disk.write_view d file b (wrapped_ok os_error (disk.write_file d file b).0 h)
  set_file_view file false d b h = cc

  set_version_view :
      (is_open : Bool) (r : Result RepoError (Unit {0})) (d : D)
      → (set_version disk codec default is_open (r, d)).0 ≡ ok tt
      → (r ≡ ok tt)
        × (disk.view (set_version disk codec default is_open (r, d)).1 fs_version
            ≡ some build_version)
        × ((q : FilePath)
            → fs_version ≢ q
            → disk.view (set_version disk codec default is_open (r, d)).1 q ≡ disk.view d q)
  unfolding set_version
  set_version_view is_open (ok u) d h = (
    refl,
    set_file_view fs_version is_open d build_version h,
    λ q other. set_file_other disk codec default fs_version q is_open d build_version other,
  )
  set_version_view is_open (err e) d h = cc

  migrate_from-writes :
      (r : Result OsError Bytes) (is_open : Bool) (d : D) (p : FilePath)
      → (migrate_from disk codec default r is_open d p).0 ≡ ok tt
      → disk.view (migrate_from disk codec default r is_open d p).1 fs_version ≡ some build_version
  unfolding migrate_from
  migrate_from-writes (ok v) is_open d p h = (set_version_view is_open _ _ h).1
  migrate_from-writes (err not_exist) is_open d p h = (set_version_view is_open _ _ h).1
  migrate_from-writes (err exist) is_open d p h = cc
  migrate_from-writes (err (os_failed n)) is_open d p h = cc

  set_version_other :
      (is_open : Bool) (d : D) (q : FilePath)
      → fs_version ≢ q
      → disk.view (set_version disk codec default is_open (ok tt, d)).1 q ≡ disk.view d q
  unfolding set_version
  set_version_other is_open d q other =
      set_file_other disk codec default fs_version q is_open d build_version other

  migrate_from-current :
      (r : Result OsError Bytes) (is_open : Bool) (d : D) (p q : FilePath)
      → disk.read_file d fs_version ≡ r
      → codec.atoi build_version ≡ pos 1210
      → disk.view d fs_version ≡ some build_version
      → fs_version ≢ q
      → disk.view (migrate_from disk codec default r is_open d p).1 q ≡ disk.view d q
  unfolding migrate_from
  migrate_from-current (ok v) is_open d p q found number current other =
      let stored = disk.read_view d fs_version v found in
      let same : v ≡ build_version = ground arith in
      let is_number : codec.atoi v ≡ pos 1210 = rw same number in
      rw is_number (set_version_other is_open d q other)
  migrate_from-current (err not_exist) is_open d p q found number current other =
      let gone = (disk.read_absent d fs_version).0 found in cc
  migrate_from-current (err exist) is_open d p q found number current other = refl
  migrate_from-current (err (os_failed n)) is_open d p q found number current other = refl

  -- A migration that succeeds leaves the version of the program in the version's file, and the next
  -- migration changes no file but that of the version, whether it succeeds or not: the upgrade is not
  -- done twice. It supposes that the text of the version reads as 1210.
  pub migrate_again :
      (is_open : Bool) (d : D) (p q : FilePath)
      → codec.atoi build_version ≡ pos 1210
      → (migrate disk codec default is_open d p).0 ≡ ok tt
      → fs_version ≢ q
      → let d' = (migrate disk codec default is_open d p).1 in
        (disk.view d' fs_version ≡ some build_version)
        × (disk.view (migrate disk codec default is_open d' p).1 q ≡ disk.view d' q)
  unfolding migrate
  migrate_again is_open d p q number h other =
      let written = migrate_from-writes (disk.read_file d fs_version) is_open d p h in
      (written, migrate_from-current _ is_open _ p q refl number written other)

  -- The configuration that an upgrade writes.
  pub record Upgraded (d d' : D) (p : FilePath) (content : Bytes) : Type 0 where
    pub old : OldMinerConfig
    pub before : MinerConfig
    pub after : MinerConfig
    pub text : Bytes
    pub decoded : codec.decode_old content ≡ ok old
    pub loads : load_config_from_disk disk codec default d p ≡ ok before
    pub converted : to_miner_config old before ≡ ok after
    pub encoded : codec.encode after ≡ ok text
    pub stored : disk.view d' p ≡ some text

  upgrade_from-Upgraded :
      (d : D) (p : FilePath) (content : Bytes) (r : Result RepoError OldMinerConfig)
      → r ≡ parsed (codec.decode_old content)
      → (upgrade_from disk codec default r true d p).0 ≡ ok tt
      → Upgraded d (upgrade_from disk codec default r true d p).1 p content
  unfolding upgrade_from
  upgrade_from-Upgraded d p content (err e) q h = cc
  upgrade_from-Upgraded d p content (ok old) q h =
      let c = set_config-Changed disk codec default d p (to_miner_config old) h in
      record {
        old = old;
        before = c.before;
        after = c.after;
        text = c.text;
        decoded = wrapped_ok config_error (codec.decode_old content) (sym q);
        loads = c.loads;
        converted = c.changed;
        encoded = c.encoded;
        stored = c.stored;
      }

  version180_upgrade-Upgraded :
      (d : D) (p : FilePath) (content : Bytes)
      → disk.read_file d p ≡ ok content
      → (version180_upgrade disk codec default true d p).0 ≡ ok tt
      → Upgraded d (version180_upgrade disk codec default true d p).1 p content
  unfolding version180_upgrade old_config
  version180_upgrade-Upgraded d p content found h =
      upgrade_from-Upgraded d p content (old_config disk codec default (disk.read_file d p))
        (rw found refl) h

  migrate_from_old :
      (v : Bytes) (d : D) (p : FilePath)
      → ltb_ℤ (codec.atoi v) (pos 180) ≡ true
      → migrate_from disk codec default (ok v) true d p
        ≡ set_version disk codec default true (version180_upgrade disk codec default true d p)
  unfolding migrate_from
  migrate_from_old v d p older = rw older refl

  -- From a repository of a version before 180, a migration that succeeds leaves in the configuration
  -- file the text of what `ToMinerConfig` makes of the old reader's and of the new reader's view of
  -- the file. It supposes that the configuration is not kept in the file of the version.
  pub migrate-upgrades :
      (d : D) (p : FilePath) (v content : Bytes)
      → disk.read_file d fs_version ≡ ok v
      → disk.read_file d p ≡ ok content
      → ltb_ℤ (codec.atoi v) (pos 180) ≡ true
      → fs_version ≢ p
      → (migrate disk codec default true d p).0 ≡ ok tt
      → Upgraded d (migrate disk codec default true d p).1 p content
  unfolding migrate
  migrate-upgrades d p v content version has older other h =
      let up_to = version180_upgrade disk codec default true d p in
      let steps : migrate_from disk codec default (disk.read_file d fs_version) true d p
          ≡ set_version disk codec default true up_to =
        rw version (migrate_from_old v d p older) in
      let (done, _, same) = set_version_view true up_to.0 up_to.1 (rw steps at h) in
      let up = version180_upgrade-Upgraded d p content has done in
      record {
        old = up.old;
        before = up.before;
        after = up.after;
        text = up.text;
        decoded = up.decoded;
        loads = up.loads;
        converted = up.converted;
        encoded = up.encoded;
        stored = rw steps (same p other ∙ up.stored);
      }
