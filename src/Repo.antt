-- ===== src/Repo.antt =====
-- node/repo: the repository on disk (fsrepo.go) and its migration (migrate.go). The operating
-- system's files, the file lock and the TOML codec are records of functions with what they document.
pub mod Changes
pub mod Laws
pub mod Migration
use sophon_miner.Config.{ConfigError, MinerConfig, OldMinerConfig, to_miner_config}
use sophon_miner.Prelude.{
  Bool, Option, Result, String, [], drop, err, false, if◌then◌else◌, length, none, ok, some, true,
  wrap_err, ℕ, ◌++◌, ◌>>=◌, ◌>>◌, ◌↔◌, ◌∷◌, ◌≡◌, ◌≢◌,
}
use sophon_miner.Prelude.Int.{ltb_ℤ, pos, ℤ}
use sophon_miner.Types.{Bytes}

-- A file by its name in the directory of the repository, or one that `SetConfigPath` gives.
pub data FilePath : Type 0 where
  fs_api fs_api_token fs_config fs_version fs_lock directory : FilePath
  outside : String → FilePath

pub data OsError : Type 0 where
  not_exist : OsError
  exist : OsError
  os_failed : ℕ → OsError

-- The calls of the os package; `view` is what a file holds.
pub record Disk (D : Type 0) : Type 0 where
  pub view : D → FilePath → Option Bytes
  pub stat : D → FilePath → Option OsError
  pub read_file : D → FilePath → Result OsError Bytes
  pub mkdir_all : D → FilePath → Result OsError (Unit {0}) × D
  -- os.Create, os.OpenFile with O_RDWR, and a write from the start of a file that one of them opened.
  pub create : D → FilePath → Result OsError (Unit {0}) × D
  pub open_rdwr : D → FilePath → Result OsError (Unit {0})
  pub write_start : D → FilePath → Bytes → Result OsError (Unit {0}) × D
  pub write_file : D → FilePath → Bytes → Result OsError (Unit {0}) × D
  pub stat_view : (d : D) (p : FilePath) → (stat d p ≡ some not_exist) ↔ (view d p ≡ none)
  pub read_view : (d : D) (p : FilePath) (b : Bytes) → read_file d p ≡ ok b → view d p ≡ some b
  pub read_absent : (d : D) (p : FilePath) → (read_file d p ≡ err not_exist) ↔ (view d p ≡ none)
  pub mkdir_view : (d : D) (p q : FilePath) → view (mkdir_all d p).1 q ≡ view d q
  pub create_other : (d : D) (p q : FilePath) → p ≢ q → view (create d p).1 q ≡ view d q
  pub create_view :
      (d : D) (p : FilePath) → (create d p).0 ≡ ok tt → view (create d p).1 p ≡ some []
  -- A write over the start of a file keeps what the file had after it.
  pub write_over :
      (d : D) (p : FilePath) (b old : Bytes)
      → view d p ≡ some old
      → (write_start d p b).0 ≡ ok tt
      → view (write_start d p b).1 p ≡ some (b ++ drop (length b) old)
  pub write_view :
      (d : D) (p : FilePath) (b : Bytes)
      → (write_file d p b).0 ≡ ok tt
      → view (write_file d p b).1 p ≡ some b
  pub write_other :
      (d : D) (p q : FilePath) (b : Bytes) → p ≢ q → view (write_file d p b).1 q ≡ view d q

-- TOML, its comments as `ConfigComment` makes them, and strconv.Atoi with its error ignored.
pub record ConfigCodec : Type 0 where
  pub decode : Bytes → MinerConfig → Result ConfigError MinerConfig
  pub decode_old : Bytes → Result ConfigError OldMinerConfig
  pub encode : MinerConfig → Result ConfigError Bytes
  pub config_comment : MinerConfig → Result ConfigError Bytes
  pub atoi : Bytes → ℤ

pub data RepoError : Type 0 where
  os_error : OsError → RepoError
  config_error : ConfigError → RepoError
  lock_error : ℕ → RepoError
  no_api_endpoint : RepoError
  repo_already_locked : RepoError
  closed_repo : RepoError

abbrev pub os : {A : Type 0} → Result OsError A → Result RepoError A
os r = wrap_err os_error r

abbrev pub parsed : {A : Type 0} → Result ConfigError A → Result RepoError A
parsed r = wrap_err config_error r

-- build.Version, "1210".
abbrev pub build_version : Bytes
build_version = 49 ∷ 50 ∷ 49 ∷ 48 ∷ []

-- The version of a repository without the file, "0".
abbrev pub no_version : Bytes
no_version = 48 ∷ []

module _ {D : Type 0} (disk : Disk D) (codec : ConfigCodec) (default : MinerConfig) where
  -- `FromFile` for the configuration: a file that is not there is the default.
  loaded : Result OsError Bytes → Result RepoError MinerConfig
  loaded (ok b) = parsed (codec.decode b default)
  loaded (err not_exist) = ok default
  loaded (err e) = err (os_error e)

  unfoldable pub load_config_from_disk : D → FilePath → Result RepoError MinerConfig
  unfolding loaded
  load_config_from_disk d p = loaded (disk.read_file d p)

  -- `Exists` looks at the configuration in the directory, wherever the configuration is.
  not_missing : Option OsError → Bool
  not_missing (some not_exist) = false
  not_missing _ = true

  unfoldable pub exists : D → Bool
  unfolding not_missing
  exists d = not_missing (disk.stat d fs_config)

  written : Result RepoError Bytes → D → FilePath → Result RepoError (Unit {0}) × D
  written (err e) d p = (err e, d)
  written (ok b) d p = let (r, d') = disk.write_start d p b in (os r, d')

  created : Result OsError (Unit {0}) × D → FilePath → Result RepoError (Unit {0}) × D
  unfolding written
  created (err e, d) p = (err (os_error e), d)
  created (ok u, d) p = written (parsed (codec.config_comment default)) d p

  -- `initConfig`
  init_found : Option OsError → D → FilePath → Result RepoError (Unit {0}) × D
  unfolding created
  init_found none d p = (ok tt, d)
  init_found (some not_exist) d p = created (disk.create d p) p
  init_found (some e) d p = (err (os_error e), d)

  unfoldable pub init_config : D → FilePath → Result RepoError (Unit {0}) × D
  unfolding init_found
  init_config d p = init_found (disk.stat d p) d p

  init_made : Result OsError (Unit {0}) × D → FilePath → Result RepoError (Unit {0}) × D
  init_made (ok u, d) p = init_config d p
  init_made (err exist, d) p = init_config d p
  init_made (err e, d) p = (err (os_error e), d)

  unfoldable pub init : D → FilePath → Result RepoError (Unit {0}) × D
  unfolding init_made
  init d p = if exists d then (ok tt, d) else init_made (disk.mkdir_all d directory) p

  -- `Update`
  update_opened :
      Result OsError (Unit {0}) → D → FilePath → MinerConfig → Result RepoError (Unit {0}) × D
  unfolding written
  update_opened (err e) d p cfg = (err (os_error e), d)
  update_opened (ok u) d p cfg = written (parsed (codec.config_comment cfg)) d p

  unfoldable pub update : D → FilePath → MinerConfig → Result RepoError (Unit {0}) × D
  unfolding update_opened
  update d p cfg = update_opened (disk.open_rdwr d p) d p cfg

  -- `SetConfig`, with a change that may end the program; an open repository is `is_open`.
  store_config : Result RepoError Bytes → D → FilePath → Result RepoError (Unit {0}) × D
  store_config (err e) d p = (err e, d)
  store_config (ok b) d p = let (r, d') = disk.write_file d p b in (os r, d')

  changed_config :
      D → FilePath → (MinerConfig → Result ConfigError MinerConfig) → Result RepoError Bytes
  changed_config d p change = do
    cfg ← load_config_from_disk d p
    cfg' ← parsed (change cfg)
    parsed (codec.encode cfg')

  unfoldable pub set_config :
      Bool
      → D
      → FilePath
      → (MinerConfig → Result ConfigError MinerConfig)
      → Result RepoError (Unit {0}) × D
  unfolding store_config changed_config
  set_config is_open d p change =
      if is_open then store_config (changed_config d p change) d p else (err closed_repo, d)

  -- `SetAPIEndpoint`, `SetVersion` and `SetAPIToken`.
  unfoldable pub set_file : FilePath → Bool → D → Bytes → Result RepoError (Unit {0}) × D
  set_file p is_open d b =
      if is_open then (let (r, d') = disk.write_file d p b in (os r, d')) else (err closed_repo, d)

  -- `Version180Upgrade`
  old_config : Result OsError Bytes → Result RepoError OldMinerConfig
  old_config (ok b) = parsed (codec.decode_old b)
  old_config (err not_exist) = ok (record {
    full_node = none;
    gateway = none;
    auth = none;
    slash_filter = none;
    tracing = none;
    metrics = none;
  })
  old_config (err e) = err (os_error e)

  upgrade_from :
      Result RepoError OldMinerConfig → Bool → D → FilePath → Result RepoError (Unit {0}) × D
  upgrade_from (err e) is_open d p = (err e, d)
  upgrade_from (ok old) is_open d p = set_config is_open d p (to_miner_config old)

  unfoldable pub version180_upgrade : Bool → D → FilePath → Result RepoError (Unit {0}) × D
  unfolding old_config upgrade_from
  version180_upgrade is_open d p = upgrade_from (old_config (disk.read_file d p)) is_open d p

  -- The loop over the versions, of which there is one; the last step writes the version.
  set_version : Bool → Result RepoError (Unit {0}) × D → Result RepoError (Unit {0}) × D
  set_version is_open (err e, d) = (err e, d)
  set_version is_open (ok u, d) = set_file fs_version is_open d build_version

  migrate_from : Result OsError Bytes → Bool → D → FilePath → Result RepoError (Unit {0}) × D
  unfolding set_version
  migrate_from (err not_exist) is_open d p = set_version is_open (
      if ltb_ℤ (codec.atoi no_version) (pos 180)
      then version180_upgrade is_open d p
      else (ok tt, d))
  migrate_from (err e) is_open d p = (err (os_error e), d)
  migrate_from (ok v) is_open d p =
      set_version is_open
        (if ltb_ℤ (codec.atoi v) (pos 180) then version180_upgrade is_open d p else (ok tt, d))

  unfoldable pub migrate : Bool → D → FilePath → Result RepoError (Unit {0}) × D
  unfolding migrate_from
  migrate is_open d p = migrate_from (disk.read_file d fs_version) is_open d p

  -- `APIEndpoint` and `APIToken`, with what trims and parses the text as parameters.
  endpoint_read :
      (Bytes → Result ConfigError String) → Result OsError Bytes → Result RepoError String
  endpoint_read parse (ok b) = parsed (parse b)
  endpoint_read parse (err not_exist) = err no_api_endpoint
  endpoint_read parse (err e) = err (os_error e)

  unfoldable pub api_endpoint : (Bytes → Result ConfigError String) → D → Result RepoError String
  unfolding endpoint_read
  api_endpoint parse d = endpoint_read parse (disk.read_file d fs_api)

  token_read : (Bytes → Bytes) → Result OsError Bytes → Result RepoError (Option Bytes)
  token_read trim (ok b) = ok (some (trim b))
  token_read trim (err not_exist) = ok none
  token_read trim (err e) = err (os_error e)

  unfoldable pub api_token : (Bytes → Bytes) → D → Result RepoError (Option Bytes)
  unfolding token_read
  api_token trim d = token_read trim (disk.read_file d fs_api_token)

-- `Lock` over the file lock of go-fs-lock: whether it is held, and taking it.
unfoldable pub lock : Result ℕ Bool → Result ℕ (Unit {0}) → Result RepoError (Unit {0})
lock held acquired = do
  is_locked ← wrap_err lock_error held
  _ ← if is_locked then err repo_already_locked else ok (tt {0})
  wrap_err lock_error acquired
