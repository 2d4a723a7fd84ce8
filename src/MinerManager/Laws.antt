-- ===== src/MinerManager/Laws.antt =====
-- The map of miners of auth_manager.go after each operation.
use sophon_miner.MinerManager.{
  AuthClient, ManagerError, Miners, User, UserMiner, add_miners, add_users, close_mining,
  co_miners_limit, info_of, is_open_mining, open_mining, replace_with, set_mining, set_opened,
  update,
}
use sophon_miner.Prelude.{
  Any, Bool, Bool-cases, List, Option, Result, Result-cases, [], ap, arith, err, false,
  if◌then◌else◌, inl, inr, nat_beq, nat_beq_iff, nat_eq, none, ok, refl, some, sym, true, ◌==◌, ◌∙◌,
  ◌∷◌, ◌≡◌, ◌⊎◌,
}
use sophon_miner.Prelude.Int.{int_beq_iff, int_eq, pos, ℤ}
use sophon_miner.Prelude.Maps.{insert, lookup, lookup-insert}
use sophon_miner.Types.{Address, MinerInfo}

-- The last entry of sophon-auth's answer for an address, over the users that are enabled.
listed_miner : Address → User → List UserMiner → Option MinerInfo → Option MinerInfo
listed_miner a user [] found = found
listed_miner a user (m ∷ ms) found =
    listed_miner a user ms (if m.miner == a then some (info_of user m) else found)

pub listed : Address → List User → Option MinerInfo → Option MinerInfo
unfolding listed_miner
listed a [] found = found
listed a (user ∷ users) found =
    listed a users (if user.state == pos 1 then listed_miner a user user.miners found else found)

lookup-add_miners :
    (a : Address) (user : User) (ms : List UserMiner) (miners : Miners)
    → lookup a (add_miners user ms miners) ≡ listed_miner a user ms (lookup a miners)
unfolding add_miners listed_miner
lookup-add_miners a user [] miners = refl
lookup-add_miners a user (m ∷ ms) miners =
    lookup-add_miners a user ms (insert m.miner (info_of user m) miners)
    ∙ ap (listed_miner a user ms) (lookup-insert m.miner a (info_of user m) miners)

lookup-add_users :
    (a : Address) (users : List User) (miners : Miners)
    → lookup a (add_users users miners) ≡ listed a users (lookup a miners)
unfolding add_users listed
lookup-add_users a [] miners = refl
lookup-add_users a (user ∷ users) miners = elim (Bool-cases (user.state == pos 1)) [
  | inl e ↦ rw e (
      lookup-add_users a users (add_miners user user.miners miners)
      ∙ ap (listed a users) (lookup-add_miners a user user.miners miners))
  | inr e ↦ rw e (lookup-add_users a users miners)
]

-- After `Update` the map holds, for each address, the last entry for it among the miners of the
-- enabled users in sophon-auth's answer, and nothing else: what the map held before is gone.
pub lookup-update :
    (auth : AuthClient) (miners : Miners) (skip limit : ℤ) (users : List User) (a : Address)
    → auth.list_users_with_miners skip (if limit == pos 0 then co_miners_limit else limit)
      ≡ ok users
    → lookup a (update auth miners skip limit).1 ≡ listed a users none
unfolding update lookup
lookup-update auth miners skip limit users a h = rw (h, replace_with) (lookup-add_users a users [])

-- A failed `Update` leaves the map as it was.
pub update_failed :
    (auth : AuthClient) (miners : Miners) (skip limit : ℤ) (e : ManagerError)
    → (update auth miners skip limit).0 ≡ err e
    → (update auth miners skip limit).1 ≡ miners
unfolding update
update_failed auth miners skip limit e h = ground arith

-- An enabled user that lists the address.
abbrev pub ListedBy : Address → MinerInfo → User → Type 0
ListedBy a info user =
    (user.state ≡ pos 1) × Any (λ m. (m.miner ≡ a) × (info_of user m ≡ info)) user.miners

listed_miner-Any :
    (a : Address) (user : User) (ms : List UserMiner) (found : Option MinerInfo) (info : MinerInfo)
    → listed_miner a user ms found ≡ some info
    → (found ≡ some info) ⊎ Any (λ m. (m.miner ≡ a) × (info_of user m ≡ info)) ms
unfolding listed_miner
listed_miner-Any a user [] found info h = inl h
listed_miner-Any a user (m ∷ ms) found info h = ground (
  arith,
  listed_miner-Any a user ms (if m.miner == a then some (info_of user m) else found) info h,
)

listed-Any :
    (a : Address) (users : List User) (found : Option MinerInfo) (info : MinerInfo)
    → listed a users found ≡ some info
    → (found ≡ some info) ⊎ Any (ListedBy a info) users
unfolding listed
listed-Any a [] found info h = inl h
listed-Any a (user ∷ users) found info h = elim (Bool-cases (user.state == pos 1)) [
  | inl e ↦ elim (listed-Any a users (listed_miner a user user.miners found) info (rw e at h)) [
    | inl own ↦ elim (listed_miner-Any a user user.miners found info own) [
      | inl old ↦ inl old
      | inr m ↦ inr (inl ((int_beq_iff user.state (pos 1)).0 e, m))
    ]
    | inr later ↦ inr (inr later)
  ]
  | inr e ↦ elim (listed-Any a users found info (rw e at h)) [
    | inl old ↦ inl old
    | inr later ↦ inr (inr later)
  ]
]

-- Every miner in the map after `Update` is listed by an enabled user, with the same account, name
-- and mining switch.
pub update-listed :
    (auth : AuthClient) (miners : Miners) (skip limit : ℤ) (users : List User) (a : Address)
    (info : MinerInfo)
    → auth.list_users_with_miners skip (if limit == pos 0 then co_miners_limit else limit)
      ≡ ok users
    → lookup a (update auth miners skip limit).1 ≡ some info
    → Any (ListedBy a info) users
update-listed auth miners skip limit users a info h found = ground (
  arith,
  listed-Any a users none info (sym (lookup-update auth miners skip limit users a h) ∙ found),
)

module _ (auth : AuthClient) (miners : Miners) (a : Address) where
  set_opened_lem :
      (b : Bool) (info info' : MinerInfo) (r : Result ManagerError (Unit {0})) (j : Address)
      → (set_opened auth b miners a info r).0 ≡ ok info'
      → (info'.open_mining ≡ b)
        × (lookup j (set_opened auth b miners a info r).1
            ≡ (if a == j then some info' else lookup j miners))
  unfolding set_opened
  set_opened_lem b info info' (ok u) j h =
      ground (arith, lookup-insert a j (record info { open_mining = b }) miners)
  set_opened_lem b info info' (err x) j h = cc

  set_mining_lem :
      (b : Bool) (q : Option MinerInfo) (info : MinerInfo) (j : Address)
      → (set_mining auth b miners a q).0 ≡ ok info
      → (info.open_mining ≡ b)
        × (lookup j (set_mining auth b miners a q).1
            ≡ (if a == j then some info else lookup j miners))
  unfolding set_mining
  set_mining_lem b none info j h = cc
  set_mining_lem b (some old) info j h = set_opened_lem b old info _ j h

  -- `OpenMining` of a miner that it returns: the miner is open, and no other entry has changed.
  pub open_mining_lem :
      (info : MinerInfo) (j : Address)
      → (open_mining auth miners a).0 ≡ ok info
      → (is_open_mining (open_mining auth miners a).1 a ≡ true)
        × (lookup j (open_mining auth miners a).1 ≡ (if a == j then some info else lookup j miners))
  unfolding open_mining is_open_mining
  open_mining_lem info j h =
      let (opened, _) = set_mining_lem true (lookup a miners) info a h in
      let (_, there) = set_mining_lem true (lookup a miners) info j h in
      let (_, here) = set_mining_lem true (lookup a miners) info a h in (ground arith, there)

  -- `CloseMining` that returns no error: the miner is closed, and every other miner is as open as it
  -- was.
  pub close_mining_lem :
      (j : Address)
      → (close_mining auth miners a).0 ≡ ok tt
      → is_open_mining (close_mining auth miners a).1 j
        ≡ (if a == j then false else is_open_mining miners j)
  unfolding close_mining is_open_mining
  close_mining_lem j h = elim (Result-cases (set_mining auth false miners a (lookup a miners)).0) [
    | inl (info, e) ↦ ground (arith, set_mining_lem false (lookup a miners) info j e)
    | inr (x, e) ↦ ground arith
  ]

  -- When sophon-auth refuses, or the miner is unknown, nothing changes.
  pub set_mining_failed :
      (e : ManagerError)
      → ((open_mining auth miners a).0 ≡ err e → (open_mining auth miners a).1 ≡ miners)
        × ((close_mining auth miners a).0 ≡ err e → (close_mining auth miners a).1 ≡ miners)
  unfolding open_mining close_mining
  set_mining_failed e = (λ h. ground arith, λ h. ground arith)

-- An entry of the map is about its key.
abbrev pub IsKeyed : Miners → Type 0
IsKeyed miners = (a : Address) (info : MinerInfo) → lookup a miners ≡ some info → info.addr ≡ a

module _ (auth : AuthClient) (miners : Miners) (keyed : IsKeyed miners) where
  set_opened-addr :
      (b : Bool) (a : Address) (old info : MinerInfo) (r : Result ManagerError (Unit {0}))
      → old.addr ≡ a
      → (set_opened auth b miners a old r).0 ≡ ok info
      → info.addr ≡ a
  unfolding set_opened
  set_opened-addr b a old info (ok u) e h = ground arith
  set_opened-addr b a old info (err x) e h = cc

  set_mining-addr :
      (b : Bool) (a : Address) (q : Option MinerInfo) (info : MinerInfo)
      → lookup a miners ≡ q
      → (set_mining auth b miners a q).0 ≡ ok info
      → info.addr ≡ a
  unfolding set_mining
  set_mining-addr b a none info e h = cc
  set_mining-addr b a (some old) info e h = set_opened-addr b a old info _ (keyed a old e) h

  -- The entry that `OpenMining` returns is the one for the address.
  pub open_mining-addr :
      (a : Address) (info : MinerInfo) → (open_mining auth miners a).0 ≡ ok info → info.addr ≡ a
  unfolding open_mining
  open_mining-addr a info h = set_mining-addr true a (lookup a miners) info refl h

  set_opened-err :
      (b : Bool) (a : Address) (old : MinerInfo) (e : ManagerError)
      (r : Result ManagerError (Unit {0}))
      → (set_opened auth b miners a old r).0 ≡ err e
      → (set_opened auth b miners a old r).1 ≡ miners
  unfolding set_opened
  set_opened-err b a old e (ok u) h = cc
  set_opened-err b a old e (err x) h = refl

  set_mining-err :
      (b : Bool) (a : Address) (q : Option MinerInfo) (e : ManagerError)
      → (set_mining auth b miners a q).0 ≡ err e
      → (set_mining auth b miners a q).1 ≡ miners
  unfolding set_mining
  set_mining-err b a none e h = refl
  set_mining-err b a (some old) e h = set_opened-err b a old e _ h

  set_mining-IsKeyed :
      (b : Bool) (a : Address) → IsKeyed (set_mining auth b miners a (lookup a miners)).1
  set_mining-IsKeyed b a j info there =
      elim (Result-cases (set_mining auth b miners a (lookup a miners)).0) [
        | inl (new, done) ↦
            let (_, after) = set_mining_lem auth miners a b (lookup a miners) new j done in
            let own = set_mining-addr b a (lookup a miners) new refl done in
            elim (Bool-cases (nat_beq a j)) [
              | inl same ↦ let e : new ≡ info = ground arith in ground (arith, nat_beq_iff a j)
              | inr other ↦ keyed j info (ground arith)
            ]
        | inr (e, went_wrong) ↦
            let same = set_mining-err b a (lookup a miners) e went_wrong in
            keyed j info (rw (← same) there)
      ]

  pub open_mining-IsKeyed : (a : Address) → IsKeyed (open_mining auth miners a).1
  unfolding open_mining
  open_mining-IsKeyed a = set_mining-IsKeyed true a

  pub close_mining-IsKeyed : (a : Address) → IsKeyed (close_mining auth miners a).1
  unfolding close_mining
  close_mining-IsKeyed a = set_mining-IsKeyed false a

listed_miner-addr :
    (a : Address) (user : User) (ms : List UserMiner) (found : Option MinerInfo) (info : MinerInfo)
    → ((old : MinerInfo) → found ≡ some old → old.addr ≡ a)
    → listed_miner a user ms found ≡ some info
    → info.addr ≡ a
unfolding listed_miner
listed_miner-addr a user [] found info before h = before info h
listed_miner-addr a user (m ∷ ms) found info before h =
    listed_miner-addr a user ms (if m.miner == a then some (info_of user m) else found) info
      (λ old e. elim (Bool-cases (nat_beq m.miner a)) [
        | inl same ↦ ground (arith, nat_beq_iff m.miner a)
        | inr other ↦ before old (ground arith)
      ])
      h

listed-addr :
    (a : Address) (users : List User) (found : Option MinerInfo) (info : MinerInfo)
    → ((old : MinerInfo) → found ≡ some old → old.addr ≡ a)
    → listed a users found ≡ some info
    → info.addr ≡ a
unfolding listed
listed-addr a [] found info before h = before info h
listed-addr a (user ∷ users) found info before h =
    listed-addr a users
      (if user.state == pos 1 then listed_miner a user user.miners found else found) info
      (λ old e. elim (Bool-cases (user.state == pos 1)) [
        | inl on ↦ listed_miner-addr a user user.miners found old before (rw on at e)
        | inr off ↦ before old (rw off at e)
      ])
      h

-- `Update` leaves every entry of the map under its own address.
pub update-IsKeyed :
    (auth : AuthClient) (miners : Miners) (skip limit : ℤ)
    → IsKeyed miners
    → IsKeyed (update auth miners skip limit).1
update-IsKeyed auth miners skip limit keyed a info there =
    elim (Result-cases
      (auth.list_users_with_miners skip (if limit == pos 0 then co_miners_limit else limit))) [
        | inl (users, q) ↦
            listed-addr a users none info (λ old e. cc)
              (sym (lookup-update auth miners skip limit users a q) ∙ there)
        | inr (e, q) ↦ keyed a info (rw (← update_kept q) there)
      ]
  where
    update_kept :
        {e : ManagerError}
        → auth.list_users_with_miners skip (if limit == pos 0 then co_miners_limit else limit)
          ≡ err e
        → (update auth miners skip limit).1 ≡ miners
    update_kept q = unfold update in ground arith
