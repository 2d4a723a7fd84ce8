-- ===== src/Prelude/Sums.antt =====
-- Sums that wrap around at 64 bits.
use Prim.Native.Nat.{ℕ, ◌+◌, ◌-◌, ◌%◌}
use mathlib.Core.Path.{◌≡◌, ap, ◌∙◌, sym, refl}
use mathlib.Core.List.{List, [], ◌∷◌, Permᴰ}
use native.Mathlib.Omega.{arith}
use sophon_miner.Prelude.Int.{ℤ, pos, negsuc, int64, ◌+ℤ◌, int_laws}

-- The 64 bits of an integer.
abbrev word : ℤ → ℕ
word (pos n) = n % 18446744073709551616
word (negsuc n) = 18446744073709551615 - n % 18446744073709551616

word-add : (a b : ℤ) → word (int64 a +ℤ b) ≡ (word a + word b) % 18446744073709551616
unfolding int64 ◌+ℤ◌
word-add (pos a) (pos b) = ground arith
word-add (pos a) (negsuc b) = ground arith
word-add (negsuc a) (pos b) = ground arith
word-add (negsuc a) (negsuc b) = ground arith

word-plain : (a b : ℤ) → word (a +ℤ b) ≡ (word a + word b) % 18446744073709551616
unfolding ◌+ℤ◌
word-plain (pos a) (pos b) = ground arith
word-plain (pos a) (negsuc b) = ground arith
word-plain (negsuc a) (pos b) = ground arith
word-plain (negsuc a) (negsuc b) = ground arith

int64_of_word : (a b : ℤ) → word a ≡ word b → int64 a ≡ int64 b
unfolding int64
int64_of_word (pos a) (pos b) h = rw h
int64_of_word (pos a) (negsuc b) h = rw h
int64_of_word (negsuc a) (pos b) h = rw h
int64_of_word (negsuc a) (negsuc b) h = rw h

-- Wrapping around once more changes nothing.
pub int64-add : (a b : ℤ) → int64 (int64 a +ℤ b) ≡ int64 (a +ℤ b)
int64-add a b = int64_of_word _ _ (word-add a b ∙ sym (word-plain a b))

-- Adding up one after another, in an int64.
unfoldable pub sum_from : ℤ → List ℤ → ℤ
sum_from total [] = total
sum_from total (x ∷ xs) = sum_from (int64 (total +ℤ x)) xs

add_swap : (t x y : ℤ) → int64 (int64 (t +ℤ x) +ℤ y) ≡ int64 (int64 (t +ℤ y) +ℤ x)
add_swap t x y =
    let comm : t +ℤ x +ℤ y ≡ t +ℤ y +ℤ x = omega int_laws in
    int64-add (t +ℤ x) y ∙ ap int64 comm ∙ sym (int64-add (t +ℤ y) x)

-- The sum does not depend on the order.
pub sum_from-perm : {xs ys : List ℤ} → Permᴰ xs ys → (t : ℤ) → sum_from t xs ≡ sum_from t ys
unfolding sum_from
sum_from-perm Permᴰ.nil t = refl
sum_from-perm (Permᴰ.cons e p) t = rw e (sum_from-perm p _)
sum_from-perm (Permᴰ.swap {a = a} {b = b} {l = l} e f) t =
    rw (← e, ← f) (ap (λ s. sum_from s l) (add_swap t a b))
sum_from-perm (Permᴰ.trans p q) t = sum_from-perm p t ∙ sum_from-perm q t
