-- ===== src/Repo/Changes.antt =====
-- node/repo/fsrepo.go: what a change of the configuration leaves on the disk, and what is read back.
use sophon_miner.Config.{ConfigError, MinerConfig}
use sophon_miner.Prelude.{
  >>=-eq-ok, Bool, Result, arith, err, false, ok, refl, some, true, wrapped_ok, ◌≡◌, ◌≢◌,
}
use sophon_miner.Recorder.Clean.{view}
use sophon_miner.Repo.{
  ConfigCodec, Disk, FilePath, OsError, RepoError, changed_config, config_error, exist,
  load_config_from_disk, loaded, not_exist, os_error, os_failed, parsed, set_config, set_file,
  store_config,
}
use sophon_miner.Types.{Bytes}

module _ {D : Type 0} (disk : Disk D) (codec : ConfigCodec) (default : MinerConfig) where
  pub set_file_other :
      (file q : FilePath) (is_open : Bool) (d : D) (b : Bytes)
      → file ≢ q
      → disk.view (set_file disk codec default file is_open d b).1 q ≡ disk.view d q
  unfolding set_file
  set_file_other file q true d b other = disk.write_other d file q b other
  set_file_other file q false d b other = refl

  store_config_view :
      (r : Result RepoError Bytes) (d : D) (p : FilePath)
      → (store_config disk codec default r d p).0 ≡ ok tt
      → (b : Bytes) × (r ≡ ok b) × (disk.view (store_config disk codec default r d p).1 p ≡ some b)
  unfolding store_config
  store_config_view (ok b) d p h =
      (b, refl, disk.write_view d p b (wrapped_ok os_error (disk.write_file d p b).0 h))
  store_config_view (err e) d p h = cc

  -- The configuration that `SetConfig` found, and the one that it wrote.
  pub record Changed (d d' : D) (p : FilePath)
      (change : MinerConfig → Result ConfigError MinerConfig) : Type 0 where
    pub before : MinerConfig
    pub after : MinerConfig
    pub text : Bytes
    pub loads : load_config_from_disk disk codec default d p ≡ ok before
    pub changed : change before ≡ ok after
    pub encoded : codec.encode after ≡ ok text
    pub stored : disk.view d' p ≡ some text

  pub set_config-Changed :
      (d : D) (p : FilePath) (change : MinerConfig → Result ConfigError MinerConfig)
      → (set_config disk codec default true d p change).0 ≡ ok tt
      → Changed d (set_config disk codec default true d p change).1 p change
  unfolding set_config changed_config
  set_config-Changed d p change h =
      let (text, written_text, stored) = store_config_view _ d p h in
      let (before, loads, rest) =
        >>=-eq-ok (load_config_from_disk disk codec default d p) _ written_text in
      let (after, changed, encoded) = >>=-eq-ok (parsed (change before)) _ rest in
      record {
        before = before;
        after = after;
        text = text;
        loads = loads;
        changed = wrapped_ok config_error (change before) changed;
        encoded = wrapped_ok config_error (codec.encode after) encoded;
        stored = stored;
      }

  loaded-decodes :
      (d : D) (p : FilePath) (r : Result OsError Bytes) (b : Bytes) (cfg : MinerConfig)
      → disk.read_file d p ≡ r
      → disk.view d p ≡ some b
      → loaded disk codec default r ≡ ok cfg
      → codec.decode b default ≡ ok cfg
  unfolding loaded
  loaded-decodes d p (ok content) b cfg q view h =
      let stored = disk.read_view d p content q in
      let same : content ≡ b = ground arith in
      rw (← same) (wrapped_ok config_error (codec.decode content default) h)
  loaded-decodes d p (err not_exist) b cfg q view h = let gone = (disk.read_absent d p).0 q in cc
  loaded-decodes d p (err exist) b cfg q view h = cc
  loaded-decodes d p (err (os_failed n)) b cfg q view h = cc

  -- A configuration that is loaded is what the file's text decodes to.
  pub load-decodes :
      (d : D) (p : FilePath) (b : Bytes) (cfg : MinerConfig)
      → disk.view d p ≡ some b
      → load_config_from_disk disk codec default d p ≡ ok cfg
      → codec.decode b default ≡ ok cfg
  unfolding load_config_from_disk
  load-decodes d p b cfg view h = loaded-decodes d p (disk.read_file d p) b cfg refl view h
