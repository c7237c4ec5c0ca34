-- ===== src/Files/Bytes.antt =====
-- Writes at a position of a buffer (`io.BytesIO`), as speakeasy/windows/fileman.py uses them.
use speakeasy.Base.{
  ℕ, zero, suc, ◌+◌, ◌-◌, ◌≤◌, ◌≡◌, refl, sym, ap, List, [], ◌∷◌, ◌++◌, length, take, drop,
  replicate, length-append, arith,
}

-- the part of a buffer before a write: a write behind the end fills the gap with zeros
unfoldable pub before : List ℕ → ℕ → List ℕ
before buffer at = take at (buffer ++ replicate (at - length buffer) 0)

-- a write of no data changes nothing
unfoldable pub write_at : List ℕ → ℕ → List ℕ → List ℕ
write_at buffer at [] = buffer
write_at buffer at (c ∷ bytes) =
    before buffer at ++ (c ∷ (bytes ++ drop (at + suc (length bytes)) buffer))

length-replicate : (n x : ℕ) → length (replicate n x) ≡ n
length-replicate zero x = refl
length-replicate (suc n) x = omega (arith, length-replicate n x)

module _ {A : Type 0} where
  pub length-take : (n : ℕ) (xs : List A) → n ≤ length xs → length (take n xs) ≡ n
  length-take zero xs h = refl
  length-take (suc n) [] h = absurd (omega arith)
  length-take (suc n) (x ∷ xs) h = omega (arith, length-take n xs (omega arith))

  pub take-prefix : (n : ℕ) (xs ys : List A) → length xs ≡ n → take n (xs ++ ys) ≡ xs
  take-prefix zero [] ys e = refl
  take-prefix zero (x ∷ xs) ys e = absurd (omega arith)
  take-prefix (suc n) [] ys e = absurd (omega arith)
  take-prefix (suc n) (x ∷ xs) ys e = ap (λ l. x ∷ l) (take-prefix n xs ys (omega arith))

  pub drop-prefix : (n : ℕ) (xs ys : List A) → length xs ≡ n → drop n (xs ++ ys) ≡ ys
  drop-prefix zero [] ys e = refl
  drop-prefix zero (x ∷ xs) ys e = absurd (omega arith)
  drop-prefix (suc n) [] ys e = absurd (omega arith)
  drop-prefix (suc n) (x ∷ xs) ys e = drop-prefix n xs ys (omega arith)

  pub drop_end : (xs : List A) → drop (length xs) xs ≡ []
  drop_end [] = refl
  drop_end (x ∷ xs) = drop_end xs

length-before : (buffer : List ℕ) (at : ℕ) → length (before buffer at) ≡ at
unfolding before
length-before buffer at = length-take at (buffer ++ replicate (at - length buffer) 0) (
    omega (
      arith,
      length-append buffer (replicate (at - length buffer) 0),
      length-replicate (at - length buffer) 0,
    ))

-- what was written is read back
pub read-write_at :
    (buffer : List ℕ) (at : ℕ) (bytes : List ℕ)
    → take (length bytes) (drop at (write_at buffer at bytes)) ≡ bytes
unfolding write_at
read-write_at buffer at [] = refl
read-write_at buffer at (c ∷ bytes) =
    rw
      (drop-prefix at (before buffer at) (c ∷ (bytes ++ drop (at + suc (length bytes)) buffer))
        (length-before buffer at))
      (ap (λ l. c ∷ l) (take-prefix (length bytes) bytes _ refl))

pub length-write_at :
    (buffer : List ℕ) (at c : ℕ) (bytes : List ℕ)
    → at + length (c ∷ bytes) ≤ length (write_at buffer at (c ∷ bytes))
unfolding write_at
length-write_at buffer at c bytes = omega (
  arith,
  length-append (before buffer at) (c ∷ (bytes ++ drop (at + suc (length bytes)) buffer)),
  length-before buffer at,
  length-append bytes (drop (at + suc (length bytes)) buffer),
)

append_nil : (xs : List ℕ) → xs ++ [] ≡ xs
append_nil [] = refl
append_nil (x ∷ xs) = ap (λ l. x ∷ l) (append_nil xs)

drop_behind : (n : ℕ) (xs : List ℕ) → length xs ≤ n → drop n xs ≡ []
drop_behind zero [] h = refl
drop_behind zero (x ∷ xs) h = absurd (omega arith)
drop_behind (suc n) [] h = refl
drop_behind (suc n) (x ∷ xs) h = drop_behind n xs (omega arith)

-- a write at the end appends
pub write_at_end : (buffer bytes : List ℕ) → write_at buffer (length buffer) bytes ≡ buffer ++ bytes
unfolding write_at before
write_at_end buffer [] = sym (append_nil buffer)
write_at_end buffer (c ∷ bytes) =
    let start : before buffer (length buffer) ≡ buffer =
      take-prefix (length buffer) buffer (replicate (length buffer - length buffer) 0) refl in
    let rest = drop_behind (length buffer + suc (length bytes)) buffer (omega arith) in
    rw (start, rest) (ap (λ l. buffer ++ c ∷ l) (append_nil bytes))
