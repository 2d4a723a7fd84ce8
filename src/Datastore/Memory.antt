-- ===== src/Datastore/Memory.antt =====
-- A datastore in memory whose calls succeed, as go-datastore's MapDatastore: it shows that the
-- interface can be met.
use sophon_miner.Datastore.{Datastore, Fault, not_found}
use sophon_miner.Prelude.{
  Bool, Eq, List, Option, Result, arith, err, inr, is_some, none, ok, some, ◌≡◌, ◌≢◌,
}
use sophon_miner.Prelude.Maps.{insert, lookup, lookup-insert, lookup-insert_self}
use sophon_miner.Types.{Bytes}

unfoldable pub found : Option Bytes → Result Fault Bytes
found none = err not_found
found (some v) = ok v

pub found-some : (o : Option Bytes) (v : Bytes) → found o ≡ ok v → o ≡ some v
unfolding found
found-some o v h = ground arith

pub found-none : (o : Option Bytes) → found o ≡ err not_found → o ≡ none
unfolding found
found-none o h = ground arith

pub ok-injective : (a b : Bool) → ◌≡◌ {A = Result Fault Bool} (ok a) (ok b) → b ≡ a
ok-injective a b h = ground arith

module _ {Key : Type 0} ⦃e : Eq Key⦄ where
  pub insert_ne :
      (s : List (Key × Bytes)) (k j : Key) (v : Bytes)
      → k ≢ j
      → lookup j (insert k v s) ≡ lookup j s
  insert_ne s k j v h = ground (arith, lookup-insert k j v s, e.beq_iff k j)

  abbrev pub memory : Datastore Key (List (Key × Bytes))
  memory = record {
    has = λ s k. ok (is_some (lookup k s));
    get = λ s k. found (lookup k s);
    put = λ s k v. (ok tt, insert k v s);
    view = λ s k. lookup k s;
    has_view = λ s k b h. ok-injective (is_some (lookup k s)) b h;
    get_view = λ s k v h. found-some (lookup k s) v h;
    get_absent = λ s k h. found-none (lookup k s) h;
    put_self = λ s k v h. lookup-insert_self k v s;
    put_atomic = λ s k v. inr (lookup-insert_self k v s);
    put_ne = λ s k j v h. insert_ne s k j v h;
  }
