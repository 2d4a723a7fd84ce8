-- ===== src/Tests/Printer.antt =====
-- A printer of records as bytes: each text is its code points plus one, ended by a zero.
use Prim.Native.Nat.{Ordering, compare}
use Prim.Native.Char.{Char, char, code, IsLt}
use sophon_miner.Prelude.{
  List, Option, String, [], ap, none, refl, some, suc, zero, ℕ, ◌∙◌, ◌∷◌, ◌≡◌,
}
use sophon_miner.Recorder.{Printer, Records}
use sophon_miner.Types.{Bytes}

abbrev Upper : Ordering → Ordering → Type 0
Upper Ordering.lt o = IsLt o
Upper Ordering.eq _ = ⊥
Upper Ordering.gt _ = ⊥

abbrev Scalar : Ordering → Ordering → Ordering → Type 0
Scalar Ordering.lt _ _ = Unit
Scalar Ordering.eq o p = Upper o p
Scalar Ordering.gt o p = Upper o p

lt_or_none : (o : Ordering) → Option (IsLt o)
lt_or_none Ordering.lt = some tt
lt_or_none Ordering.eq = none
lt_or_none Ordering.gt = none

upper_or_none : (o p : Ordering) → Option (Upper o p)
upper_or_none Ordering.lt p = lt_or_none p
upper_or_none Ordering.eq p = none
upper_or_none Ordering.gt p = none

scalar_or_none : (o p q : Ordering) → Option (Scalar o p q)
scalar_or_none Ordering.lt p q = some tt
scalar_or_none Ordering.eq p q = upper_or_none p q
scalar_or_none Ordering.gt p q = upper_or_none p q

lt_found : (o : Ordering) (h : IsLt o) → lt_or_none o ≡ some h
unfolding lt_or_none
lt_found Ordering.lt h = refl
lt_found Ordering.eq h = absurd h
lt_found Ordering.gt h = absurd h

upper_found : (o p : Ordering) (h : Upper o p) → upper_or_none o p ≡ some h
unfolding upper_or_none
upper_found Ordering.lt p h = lt_found p h
upper_found Ordering.eq p h = absurd h
upper_found Ordering.gt p h = absurd h

scalar_found : (o p q : Ordering) (h : Scalar o p q) → scalar_or_none o p q ≡ some h
unfolding scalar_or_none
scalar_found Ordering.lt p q h = refl
scalar_found Ordering.eq p q h = upper_found p q h
scalar_found Ordering.gt p q h = upper_found p q h

abbrev char_of :
    (n : ℕ) → Option (Scalar (compare n 55296) (compare 57343 n) (compare n 1114112)) → Option Char
char_of n none = none
char_of n (some h) = some (char n h)

read_char : ℕ → Option Char
read_char n = char_of n (scalar_or_none (compare n 55296) (compare 57343 n) (compare n 1114112))

read_char-code : (c : Char) → read_char (code c) ≡ some c
unfolding read_char
read_char-code (char n h) =
    ap (char_of n) (scalar_found (compare n 55296) (compare 57343 n) (compare n 1114112) h)

start_text : Option (List String) → Option (List String)
start_text none = none
start_text (some l) = some ("" ∷ l)

add_char : Option Char → Option (List String) → Option (List String)
add_char (some c) (some (s ∷ l)) = some (String.◌∷◌ c s ∷ l)
add_char _ _ = none

read_texts : Bytes → Option (List String)
unfolding start_text add_char
read_texts [] = some []
read_texts (zero ∷ b) = start_text (read_texts b)
read_texts (suc n ∷ b) = add_char (read_char n) (read_texts b)

text_bytes : String → Bytes → Bytes
text_bytes String.[] b = 0 ∷ b
text_bytes (String.◌∷◌ c s) b = suc (code c) ∷ text_bytes s b

read_texts-text_bytes :
    (s : String) (b : Bytes) (l : List String)
    → read_texts b ≡ some l
    → read_texts (text_bytes s b) ≡ some (s ∷ l)
unfolding read_texts text_bytes
read_texts-text_bytes String.[] b l h = rw h
read_texts-text_bytes (String.◌∷◌ c s) b l h = rw (read_char-code c, read_texts-text_bytes s b l h)

unfoldable pub marshal : Records → Bytes
unfolding text_bytes
marshal [] = []
marshal ((k, v) ∷ m) = text_bytes k (text_bytes v (marshal m))

flatten : Records → List String
flatten [] = []
flatten ((k, v) ∷ m) = k ∷ v ∷ flatten m

add_entry : String → String → Option Records → Option Records
add_entry k v none = none
add_entry k v (some m) = some ((k, v) ∷ m)

pair_up : List String → Option Records
unfolding add_entry
pair_up [] = some []
pair_up (k ∷ []) = none
pair_up (k ∷ v ∷ l) = add_entry k v (pair_up l)

pair_up_all : Option (List String) → Option Records
pair_up_all none = none
pair_up_all (some l) = pair_up l

read_texts-marshal : (m : Records) → read_texts (marshal m) ≡ some (flatten m)
unfolding marshal flatten read_texts
read_texts-marshal [] = refl
read_texts-marshal ((k, v) ∷ m) =
    read_texts-text_bytes k (text_bytes v (marshal m)) (v ∷ flatten m)
      (read_texts-text_bytes v (marshal m) (flatten m) (read_texts-marshal m))

pair_up-flatten : (m : Records) → pair_up (flatten m) ≡ some m
unfolding pair_up flatten
pair_up-flatten [] = refl
pair_up-flatten ((k, v) ∷ m) = rw (pair_up-flatten m)

unfoldable pub unmarshal : Bytes → Option Records
unfolding pair_up_all read_texts pair_up add_char start_text read_char scalar_or_none upper_or_none
    lt_or_none add_entry
unmarshal b = pair_up_all (read_texts b)

pub unmarshal-marshal : (m : Records) → unmarshal (marshal m) ≡ some m
unfolding unmarshal pair_up_all
unmarshal-marshal m = ap pair_up_all (read_texts-marshal m) ∙ pair_up-flatten m

abbrev pub printer : Printer
printer = record {
  marshal = marshal;
  unmarshal = unmarshal;
  unmarshal_marshal = unmarshal-marshal;
  address_string = λ a. "t01000";
  epoch_string = λ e. "5";
}
