-- ===== src/Block/RamDisk/Bytes.antt =====
-- `core::ptr::copy_nonoverlapping` into a list of bytes, and what is read after it.
use sparreal_os.Prelude.{
  ℕ, zero, suc, ◌+◌, ◌≤◌, ◌≡◌, refl, ap, List, [], ◌∷◌, length, take, drop, arith,
}

-- Writes the bytes from the start of the list on.
unfoldable pub overwrite : List ℕ → List ℕ → List ℕ
overwrite [] xs = xs
overwrite (d ∷ ds) [] = []
overwrite (d ∷ ds) (x ∷ xs) = d ∷ overwrite ds xs

unfoldable pub copy : ℕ → List ℕ → List ℕ → List ℕ
copy zero ds xs = overwrite ds xs
copy (suc n) ds [] = []
copy (suc n) ds (x ∷ xs) = x ∷ copy n ds xs

length-overwrite : (ds xs : List ℕ) → length (overwrite ds xs) ≡ length xs
unfolding overwrite
length-overwrite [] xs = refl
length-overwrite (d ∷ ds) [] = refl
length-overwrite (d ∷ ds) (x ∷ xs) = ap suc (length-overwrite ds xs)

pub length-copy : (n : ℕ) (ds xs : List ℕ) → length (copy n ds xs) ≡ length xs
unfolding copy
length-copy zero ds xs = length-overwrite ds xs
length-copy (suc n) ds [] = refl
length-copy (suc n) ds (x ∷ xs) = ap suc (length-copy n ds xs)

take-overwrite : (ds xs : List ℕ) → length ds ≤ length xs → take (length ds) (overwrite ds xs) ≡ ds
unfolding overwrite
take-overwrite [] xs h = refl
take-overwrite (d ∷ ds) [] h = absurd (omega arith)
take-overwrite (d ∷ ds) (x ∷ xs) h = ap (λ t. d ∷ t) (take-overwrite ds xs (omega arith))

pub read-copy_self :
    (n : ℕ) (ds xs : List ℕ)
    → n + length ds ≤ length xs
    → take (length ds) (drop n (copy n ds xs)) ≡ ds
unfolding copy
read-copy_self zero ds xs h = take-overwrite ds xs (omega arith)
read-copy_self (suc n) [] [] h = refl
read-copy_self (suc n) (d ∷ ds) [] h = absurd (omega arith)
read-copy_self (suc n) ds (x ∷ xs) h = read-copy_self n ds xs (omega arith)

pub read-copy_before :
    (n m k : ℕ) (ds xs : List ℕ) → n + k ≤ m → take k (drop n (copy m ds xs)) ≡ take k (drop n xs)
unfolding copy
read-copy_before n m zero ds xs h = refl
read-copy_before zero (suc m) (suc k) ds [] h = refl
read-copy_before zero (suc m) (suc k) ds (x ∷ xs) h =
    ap (λ t. x ∷ t) (read-copy_before zero m k ds xs (omega arith))
read-copy_before (suc n) (suc m) (suc k) ds [] h = refl
read-copy_before (suc n) (suc m) (suc k) ds (x ∷ xs) h =
    read-copy_before n m (suc k) ds xs (omega arith)
read-copy_before n zero (suc k) ds xs h = absurd (omega arith)

drop-overwrite : (n : ℕ) (ds xs : List ℕ) → length ds ≤ n → drop n (overwrite ds xs) ≡ drop n xs
unfolding overwrite
drop-overwrite n [] xs h = refl
drop-overwrite zero (d ∷ ds) xs h = absurd (omega arith)
drop-overwrite (suc n) (d ∷ ds) [] h = refl
drop-overwrite (suc n) (d ∷ ds) (x ∷ xs) h = drop-overwrite n ds xs (omega arith)

pub read-copy_after :
    (n m : ℕ) (ds xs : List ℕ) → m + length ds ≤ n → drop n (copy m ds xs) ≡ drop n xs
unfolding copy
read-copy_after n zero ds xs h = drop-overwrite n ds xs (omega arith)
read-copy_after zero (suc m) ds xs h = absurd (omega arith)
read-copy_after (suc n) (suc m) ds [] h = refl
read-copy_after (suc n) (suc m) ds (x ∷ xs) h = read-copy_after n m ds xs (omega arith)
