-- ===== src/Cmd/Init/Laws.antt =====
-- cmd/init.go and node/config/def.go: the configuration that `init` leaves behind, and whether `run`
-- takes it.
use sophon_miner.Cmd.Init.{
  InitError, InitFlags, Resolver, addressed, auth_of, change_config, change_filter, filter_of,
  fullnode_of, gateway_of, listen_address, propagation_delay_of, storage_miner_init, version_set,
}
use sophon_miner.Config.{ApiInfo, GatewayNode, MinerConfig, SlashFilterConfig, check, no_address}
use sophon_miner.Config.Laws.{check_iff, is_from, is_runnable}
use sophon_miner.Prelude.{
  Bool, Bool-cases, List, Option, Result, String, arith, err, if◌then◌else◌, inl, inr, list_eq,
  nat_eq, none, not, ok, refl, some, string_eq, true, ℕ, ◌&&◌, ◌==◌, ◌||◌, ◌↔◌, ◌∙◌, ◌≡◌,
}
use sophon_miner.Prelude.Int.{int_eq}
use sophon_miner.Repo.{
  ConfigCodec, Disk, RepoError, build_version, fs_config, fs_version, load_config_from_disk,
  set_config,
}
use sophon_miner.Repo.Changes.{load-decodes, set_config-Changed, set_file_other}
use sophon_miner.Types.{Bytes, state_eq}

-- The text of a configuration is read back as that configuration; TOML has this where no pointer is
-- nil that the default fills.
abbrev pub ReadsBack : ConfigCodec → MinerConfig → MinerConfig → Type 0
ReadsBack codec default cfg =
    (b : Bytes) → codec.encode cfg ≡ ok b → codec.decode b default ≡ ok cfg

-- What the flags, and the configuration that was there before, must have for `run` to take the new
-- one.
abbrev pub is_startable : (String → Bool) → InitFlags → String → MinerConfig → Bool
is_startable parses f ma before =
    not (ma == "")
    && ((not (f.api == "") && not (f.token == ""))
        && ((if not (f.auth_api == "")
              then parses f.auth_api
              else is_from (λ auth. parses auth.addr) before.auth)
            && (elim f.gateway_api [
              | some addrs ↦ not (no_address addrs)
              | none ↦ is_from (λ gateway. not (no_address gateway.listen_api)) before.gateway
            ]
                && (f.slash_filter == "local"
                    || (f.slash_filter == "mysql" && not (f.mysql_conn == ""))))))

all_equal :
    (l k a a' b b' c c' : Bool)
    → a ≡ a'
    → b ≡ b'
    → c ≡ c'
    → l && (a && (b && (c && k))) ≡ (l && (a' && (b' && (c' && k))))
all_equal l k a a' b b' c c' p q r = cc

module _ (parses : String → Bool) (f : InitFlags) where
  fullnode_set :
      is_from (λ full. not (full.addr == "") && not (full.token == "")) (some (fullnode_of f))
      ≡ (not (f.api == "") && not (f.token == ""))
  unfolding fullnode_of
  fullnode_set = elim (Bool-cases (not (f.api == "") && not (f.token == ""))) [
    | inl given ↦ rw (given, fullnode_of) given
    | inr absent ↦ rw (absent, fullnode_of) refl
  ]

  auth_parses :
      (old : Option ApiInfo)
      → is_from (λ auth. parses auth.addr) (auth_of f old) ≡ (
          if not (f.auth_api == "")
          then parses f.auth_api
          else is_from (λ auth. parses auth.addr) old)
  unfolding auth_of
  auth_parses old = ground arith

  gateway_listed :
      (given : Option (List String)) (old : Option GatewayNode)
      → is_from (λ gateway. not (no_address gateway.listen_api)) (gateway_of f given old)
        ≡ elim given [
          | some addrs ↦ not (no_address addrs)
          | none ↦ is_from (λ gateway. not (no_address gateway.listen_api)) old
        ]
  unfolding gateway_of
  gateway_listed none old = refl
  gateway_listed (some addrs) old = refl

  change_filter-runnable :
      (ma : String) (block_delay : ℕ) (before after : MinerConfig) (sf : Option SlashFilterConfig)
      → change_filter f ma block_delay before sf ≡ ok after
      → is_runnable parses after ≡ is_startable parses f ma before
  unfolding change_filter filter_of
  change_filter-runnable ma block_delay before after none h = cc
  change_filter-runnable ma block_delay before after (some sf) h =
      let made : change_filter f ma block_delay before (some sf) ≡ ok after = h in
      let after_q : record before {
        full_node = some (fullnode_of f);
        gateway = gateway_of f f.gateway_api before.gateway;
        auth = auth_of f before.auth;
        api_listen_address = ma;
        slash_filter = some (filter_of f sf);
        propagation_delay_secs = propagation_delay_of block_delay;
      }
          ≡ after =
        cc in
      rw (← after_q) (
        all_equal _ _ _ _ _ _ _ _ fullnode_set (auth_parses before.auth)
          (gateway_listed f.gateway_api before.gateway))

  pub change_config-runnable :
      (ma : String) (block_delay : ℕ) (before after : MinerConfig)
      → change_config f ma block_delay before ≡ ok after
      → is_runnable parses after ≡ is_startable parses f ma before
  unfolding change_config
  change_config-runnable ma block_delay before after h =
      change_filter-runnable ma block_delay before after before.slash_filter h

module _ {D : Type 0} (disk : Disk D) (codec : ConfigCodec) (default : MinerConfig) where
  version_set-ok :
      (r : Result RepoError (Unit {0})) (d : D)
      → (version_set disk codec default (r, d)).0 ≡ ok tt
      → (r ≡ ok tt)
        × (disk.view (version_set disk codec default (r, d)).1 fs_config ≡ disk.view d fs_config)
  unfolding version_set
  version_set-ok (ok u) d h =
      (refl, set_file_other disk codec default fs_version fs_config true d build_version (λ q. cc))
  version_set-ok (err e) d h = cc

  -- `storageMinerInit` that returns no error: the address to listen at was resolved, and the
  -- configuration that is read afterwards passes `Check` exactly where `is_startable` says so of the
  -- flags and of the configuration before: with no gateway among the flags, only where the one before
  -- had the address of one. It supposes that TOML reads the written configuration back.
  pub storage_miner_init-startable :
      (parses : String → Bool) (net : Resolver) (f : InitFlags) (block_delay : ℕ)
      (locked : Result RepoError (Unit {0})) (d : D) (before after : MinerConfig)
      → ((ma : String) (made : MinerConfig)
          → listen_address net f ≡ ok ma
          → change_config f ma block_delay before ≡ ok made
          → ReadsBack codec default made)
      → load_config_from_disk disk codec default d fs_config ≡ ok before
      → (storage_miner_init disk codec default net f block_delay locked d).0 ≡ ok tt
      → load_config_from_disk disk codec default
          (storage_miner_init disk codec default net f block_delay locked d).1
          fs_config
        ≡ ok after
      → (ma : String) × (listen_address net f ≡ ok ma)
        × ((check parses after ≡ ok tt) ↔ (is_startable parses f ma before ≡ true))
  unfolding storage_miner_init
  storage_miner_init-startable parses net f block_delay (err e) d before after toml loads h read =
      cc
  storage_miner_init-startable parses net f block_delay (ok u) d before after toml loads h read =
      from_address (listen_address net f) refl h read
    where
      configured :
          (ma : String)
          → listen_address net f ≡ ok ma
          → (addressed disk codec default f block_delay d (ok ma)).0 ≡ ok tt
          → load_config_from_disk disk codec default
              (addressed disk codec default f block_delay d (ok ma)).1
              fs_config
            ≡ ok after
          → is_runnable parses after ≡ is_startable parses f ma before
      configured ma q h' read' =
          let (r, d1) =
            set_config disk codec default true d fs_config (change_config f ma block_delay) in
          let (set, kept) = version_set-ok r d1 (unfold addressed in h') in
          let c =
            set_config-Changed disk codec default d fs_config (change_config f ma block_delay)
              set in
          let same : c.before ≡ before = ground (arith, c.loads) in
          let changed : change_config f ma block_delay before ≡ ok c.after =
            rw (← same) c.changed in
          let decoded =
            load-decodes disk codec default _ fs_config c.text after (kept ∙ c.stored)
              (unfold addressed in read') in
          let after_q : c.after ≡ after =
            ground (arith, decoded, toml ma c.after q changed c.text c.encoded) in
          rw (← after_q) (change_config-runnable parses f ma block_delay before c.after changed)

      from_address :
          (r : Result InitError String)
          → listen_address net f ≡ r
          → (addressed disk codec default f block_delay d r).0 ≡ ok tt
          → load_config_from_disk disk codec default
              (addressed disk codec default f block_delay d r).1
              fs_config
            ≡ ok after
          → (ma : String) × (listen_address net f ≡ ok ma)
            × ((check parses after ≡ ok tt) ↔ (is_startable parses f ma before ≡ true))
      from_address (err e) q h' read' = unfold addressed in cc
      from_address (ok ma) q h' read' =
          (ma, q, rw (← configured ma q h' read') (check_iff parses after))
