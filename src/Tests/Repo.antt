-- ===== src/Tests/Repo.antt =====
-- A disk that holds a configuration, a version and a token, and a codec whose texts are one byte.
use sophon_miner.Config.{
  MinerConfig, OldMinerConfig, check, check_auth, check_full_node, check_gateway, check_listen,
  check_slash_filter, default_api_info, default_miner_config, new_default_gateway_node,
  new_slash_filter_config, to_miner_config,
}
use sophon_miner.Config.Laws.{check_iff, is_runnable}
use sophon_miner.Prelude.{
  Option, Result, [], ap, arith, drop, err, false, if◌then◌else◌, leb, length, none, ok, refl, some,
  true, ◌++◌, ◌↔◌, ◌∙◌, ◌∷◌, ◌≡◌, ◌≢◌,
}
use sophon_miner.Prelude.Int.{pos}
use sophon_miner.Repo.{
  ConfigCodec, Disk, FilePath, OsError, build_version, directory, fs_api, fs_api_token, fs_config,
  fs_lock, fs_version, load_config_from_disk, migrate, not_exist, os_failed, outside, set_config,
  set_file, version180_upgrade,
}
use sophon_miner.Repo.Migration.{migrate_again}
use sophon_miner.Types.{Bytes}

abbrev pub RepoFiles : Type 0
RepoFiles = Option Bytes × Option Bytes × Option Bytes

abbrev pub seen : RepoFiles → FilePath → Option Bytes
seen (c, v, t) fs_config = c
seen (c, v, t) fs_version = v
seen (c, v, t) fs_api = none
seen (c, v, t) fs_api_token = t
seen (c, v, t) fs_lock = none
seen (c, v, t) directory = none
seen (c, v, t) (outside name) = none

abbrev store : RepoFiles → FilePath → Bytes → Result OsError (Unit {0}) × RepoFiles
store (c, v, t) fs_config b = (ok tt, (some b, v, t))
store (c, v, t) fs_version b = (ok tt, (c, some b, t))
store d fs_api b = (err (os_failed 0), d)
store (c, v, t) fs_api_token b = (ok tt, (c, v, some b))
store d fs_lock b = (err (os_failed 0), d)
store d directory b = (err (os_failed 0), d)
store d (outside name) b = (err (os_failed 0), d)

abbrev missing : Option Bytes → Option OsError
missing none = some not_exist
missing (some b) = none

abbrev content_of : Option Bytes → Result OsError Bytes
content_of none = err not_exist
content_of (some b) = ok b

abbrev present : Option Bytes → Result OsError (Unit {0})
present none = err not_exist
present (some b) = ok tt

abbrev over : Option Bytes → Bytes → Bytes
over none b = b
over (some old) b = b ++ drop (length b) old

pub store_view :
    (d : RepoFiles) (p : FilePath) (b : Bytes)
    → (store d p b).0 ≡ ok tt
    → seen (store d p b).1 p ≡ some b
store_view d fs_config b h = refl
store_view d fs_version b h = refl
store_view d fs_api b h = cc
store_view d fs_api_token b h = refl
store_view d fs_lock b h = cc
store_view d directory b h = cc
store_view d (outside name) b h = cc

pub store_other :
    (d : RepoFiles) (p q : FilePath) (b : Bytes) → p ≢ q → seen (store d p b).1 q ≡ seen d q
store_other d fs_config fs_config b ne = absurd (ne refl)
store_other d fs_config fs_version b ne = refl
store_other d fs_config fs_api b ne = refl
store_other d fs_config fs_api_token b ne = refl
store_other d fs_config fs_lock b ne = refl
store_other d fs_config directory b ne = refl
store_other d fs_config (outside name) b ne = refl
store_other d fs_version fs_config b ne = refl
store_other d fs_version fs_version b ne = absurd (ne refl)
store_other d fs_version fs_api b ne = refl
store_other d fs_version fs_api_token b ne = refl
store_other d fs_version fs_lock b ne = refl
store_other d fs_version directory b ne = refl
store_other d fs_version (outside name) b ne = refl
store_other d fs_api q b ne = refl
store_other d fs_api_token fs_config b ne = refl
store_other d fs_api_token fs_version b ne = refl
store_other d fs_api_token fs_api b ne = refl
store_other d fs_api_token fs_api_token b ne = absurd (ne refl)
store_other d fs_api_token fs_lock b ne = refl
store_other d fs_api_token directory b ne = refl
store_other d fs_api_token (outside name) b ne = refl
store_other d fs_lock q b ne = refl
store_other d directory q b ne = refl
store_other d (outside name) q b ne = refl

pub missing_iff : (o : Option Bytes) → (missing o ≡ some not_exist) ↔ (o ≡ none)
missing_iff none = ground arith
missing_iff (some b) = ground arith

pub content_of-ok : (o : Option Bytes) (b : Bytes) → content_of o ≡ ok b → o ≡ some b
content_of-ok none b h = cc
content_of-ok (some c) b h = ap some (ground arith)

pub content_of_iff : (o : Option Bytes) → (content_of o ≡ err not_exist) ↔ (o ≡ none)
content_of_iff none = ground arith
content_of_iff (some b) = ground arith

pub over_view :
    (d : RepoFiles) (p : FilePath) (b old : Bytes)
    → seen d p ≡ some old
    → (store d p (over (seen d p) b)).0 ≡ ok tt
    → seen (store d p (over (seen d p) b)).1 p ≡ some (b ++ drop (length b) old)
over_view d p b old h done = store_view d p (over (seen d p) b) done ∙ ap (λ o. some (over o b)) h

abbrev pub repo_files : Disk RepoFiles
repo_files = record {
  view = seen;
  stat = λ d p. missing (seen d p);
  read_file = λ d p. content_of (seen d p);
  mkdir_all = λ d p. (ok tt, d);
  create = λ d p. store d p [];
  open_rdwr = λ d p. present (seen d p);
  write_start = λ d p b. store d p (over (seen d p) b);
  write_file = store;
  stat_view = λ d p. missing_iff (seen d p);
  read_view = λ d p b h. content_of-ok (seen d p) b h;
  read_absent = λ d p. content_of_iff (seen d p);
  mkdir_view = λ d p q. refl;
  create_other = λ d p q ne. store_other d p q [] ne;
  create_view = λ d p h. store_view d p [] h;
  write_over = over_view;
  write_view = store_view;
  write_other = store_other;
}

abbrev pub defaults : MinerConfig
defaults = default_miner_config "trace" "metric"

abbrev old_settings : OldMinerConfig
old_settings = record {
  full_node = some (record { addr = "http://node"; token = "t" });
  gateway = some new_default_gateway_node;
  auth = some default_api_info;
  slash_filter = some (record new_slash_filter_config { kind = "mysql" });
  tracing = none;
  metrics = none;
}

abbrev one_byte_codec : ConfigCodec
one_byte_codec = record {
  decode = λ b default. ok default;
  decode_old = λ b. ok old_settings;
  encode = λ cfg. ok (7 ∷ []);
  config_comment = λ cfg. ok (35 ∷ 10 ∷ []);
  atoi = λ b. if leb 2 (length b) then pos 1210 else pos 0;
}

abbrev old_repo : RepoFiles
old_repo = (some (1 ∷ []), some (48 ∷ []), none)

migrate_again_example :
    let d' = (migrate repo_files one_byte_codec defaults true old_repo fs_config).1 in
    (seen d' fs_version ≡ some build_version)
    × (seen (migrate repo_files one_byte_codec defaults true d' fs_config).1 fs_config
        ≡ seen d' fs_config)
unfolding migrate version180_upgrade set_config load_config_from_disk to_miner_config set_file
migrate_again_example =
    migrate_again repo_files one_byte_codec defaults true old_repo fs_config fs_config refl refl
      (λ same. cc)

abbrev pub runnable : MinerConfig
runnable = record defaults {
  full_node = some (record { addr = "http://node"; token = "t" });
  gateway = some (record { listen_api = "http://gateway" ∷ []; token = "" });
}

check_iff_example : (check (λ s. true) runnable ≡ ok tt) ↔ (is_runnable (λ s. true) runnable ≡ true)
check_iff_example = check_iff (λ s. true) runnable

pub passes : check (λ s. true) runnable ≡ ok tt
unfolding check check_listen check_full_node check_auth check_gateway check_slash_filter
passes = refl

-- The defaults have no token, and do not pass.
not_runnable : is_runnable (λ s. true) defaults ≡ false
not_runnable = refl
