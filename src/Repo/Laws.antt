-- ===== src/Repo/Laws.antt =====
-- node/repo/fsrepo.go: what `Init` and `Update` leave on the disk.
use sophon_miner.Config.{MinerConfig}
use sophon_miner.Prelude.{
  Bool-cases, Option, Result, [], arith, drop, err, inl, inr, length, none, ok, refl, some, suc,
  true, wrapped_ok, zero, ℕ, ◌++◌, ◌≡◌,
}
use sophon_miner.Repo.{
  ConfigCodec, Disk, FilePath, OsError, RepoError, created, directory, exist, exists, fs_config,
  init, init_config, init_found, init_made, not_exist, not_missing, os, os_error, os_failed, parsed,
  update, update_opened, written,
}
use sophon_miner.Types.{Bytes}

drop_nil : {A : Type 0} (n : ℕ) → drop {A = A} n [] ≡ []
drop_nil zero = refl
drop_nil (suc n) = refl

os-ok : {A : Type 0} (r : Result OsError A) (a : A) → os r ≡ ok a → r ≡ ok a
os-ok r a h = wrapped_ok os_error r h

module _ {D : Type 0} (disk : Disk D) (codec : ConfigCodec) (default : MinerConfig) where
  written_view :
      (r : Result RepoError Bytes) (d : D) (p : FilePath) (b old : Bytes)
      → r ≡ ok b
      → disk.view d p ≡ some old
      → (written disk codec default r d p).0 ≡ ok tt
      → disk.view (written disk codec default r d p).1 p ≡ some (b ++ drop (length b) old)
  unfolding written
  written_view (ok b') d p b old q view h =
      let same : b' ≡ b = ground arith in
      rw (← same) (disk.write_over d p b' old view (os-ok (disk.write_start d p b').0 tt h))
  written_view (err e) d p b old q view h = cc

  written-ok :
      (r : Result RepoError Bytes) (d : D) (p : FilePath)
      → (written disk codec default r d p).0 ≡ ok tt
      → (b : Bytes) × (r ≡ ok b)
  unfolding written
  written-ok (ok b) d p h = (b, refl)
  written-ok (err e) d p h = cc

  -- `Update` writes over the file without truncating it: what was beyond the length of the new text
  -- is still there.
  pub update-tail :
      (d : D) (p : FilePath) (cfg : MinerConfig) (b old : Bytes)
      → disk.view d p ≡ some old
      → codec.config_comment cfg ≡ ok b
      → (update disk codec default d p cfg).0 ≡ ok tt
      → disk.view (update disk codec default d p cfg).1 p ≡ some (b ++ drop (length b) old)
  unfolding update
  update-tail d p cfg b old view text h = opened (disk.open_rdwr d p) h
    where
      opened :
          (r : Result OsError (Unit {0}))
          → (update_opened disk codec default r d p cfg).0 ≡ ok tt
          → disk.view (update_opened disk codec default r d p cfg).1 p
            ≡ some (b ++ drop (length b) old)
      opened (ok u) h =
          written_view (parsed (codec.config_comment cfg)) d p b old (rw text refl) view h
      opened (err e) h = cc

  created_view :
      (r : Result OsError (Unit {0})) (d : D) (p : FilePath)
      → (r ≡ ok tt → disk.view d p ≡ some [])
      → (created disk codec default (r, d) p).0 ≡ ok tt
      → (b : Bytes) × (disk.view (created disk codec default (r, d) p).1 p ≡ some b)
  unfolding created
  created_view (ok u) d p empty h =
      let (b, text) = written-ok (parsed (codec.config_comment default)) d p h in
      (
        b ++ drop (length b) [],
        written_view (parsed (codec.config_comment default)) d p b [] text (empty refl) h,
      )
  created_view (err e) d p empty h = cc

  -- A file that is there, however it is found.
  abbrev HasConfig : D → FilePath → Type 0
  HasConfig d p = ¬ (disk.view d p ≡ none)

  init_found-HasConfig :
      (r : Option OsError) (d : D) (p : FilePath)
      → disk.stat d p ≡ r
      → (init_found disk codec default r d p).0 ≡ ok tt
      → HasConfig (init_found disk codec default r d p).1 p
  unfolding init_found
  init_found-HasConfig none d p found h gone = let missing = (disk.stat_view d p).1 gone in cc
  init_found-HasConfig (some not_exist) d p found h gone =
      let (b, view) =
        created_view (disk.create d p).0 (disk.create d p).1 p (disk.create_view d p) h in
      cc
  init_found-HasConfig (some exist) d p found h gone = cc
  init_found-HasConfig (some (os_failed n)) d p found h gone = cc

  init_made-HasConfig :
      (r : Result OsError (Unit {0})) (d : D) (p : FilePath)
      → (init_made disk codec default (r, d) p).0 ≡ ok tt
      → HasConfig (init_made disk codec default (r, d) p).1 p
  unfolding init_made init_config
  init_made-HasConfig (ok u) d p h = init_found-HasConfig (disk.stat d p) d p refl h
  init_made-HasConfig (err exist) d p h = init_found-HasConfig (disk.stat d p) d p refl h
  init_made-HasConfig (err not_exist) d p h = cc
  init_made-HasConfig (err (os_failed n)) d p h = cc

  exists-of : (d : D) → HasConfig d fs_config → exists disk codec default d ≡ true
  unfolding exists not_missing
  exists-of d has = found (disk.stat d fs_config) refl
    where
      found :
          (r : Option OsError) → disk.stat d fs_config ≡ r → not_missing disk codec default r ≡ true
      found none q = refl
      found (some exist) q = refl
      found (some (os_failed n)) q = refl
      found (some not_exist) q = absurd (has ((disk.stat_view d fs_config).0 q))

  -- With the configuration in the directory: after an `Init` that succeeds the repository exists, and
  -- another `Init` succeeds and changes nothing.
  pub init_again :
      (d : D)
      → (init disk codec default d fs_config).0 ≡ ok tt
      → let d' = (init disk codec default d fs_config).1 in
        (exists disk codec default d' ≡ true) × (init disk codec default d' fs_config ≡ (ok tt, d'))
  unfolding init
  init_again d h = elim (Bool-cases (exists disk codec default d)) [
    | inl there ↦ rw there (there, rw there refl)
    | inr missing ↦
        let r = disk.mkdir_all d directory in
        let made = exists-of _ (init_made-HasConfig r.0 r.1 fs_config (rw missing at h)) in
        rw missing (made, rw made refl)
  ]
