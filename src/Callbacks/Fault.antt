-- ===== src/Callbacks/Fault.antt =====
-- `get_first_unmapped` of speakeasy/windows/guest_callbacks.py finds the first address of an access
-- that no region holds.
use speakeasy.Base.{
  ℕ, zero, suc, ◌+◌, ◌≤◌, ◌<◌, ◌≡◌, refl, ◌⊎◌, inl, inr, true, false, ◌&&◌, none, some, List, [],
  ◌∷◌, ltb, leb, Bool-cases, Option-cases, ltb→lt, arith,
}
use speakeasy.Memory.Engine.{Region, covered}
use speakeasy.Callbacks.{region_end, unmapped_from, get_first_unmapped}

region_end-none :
    (regions : List Region) (x : ℕ) → region_end regions x ≡ none → covered regions x ≡ false
unfolding region_end covered
region_end-none [] x e = refl
region_end-none ((first, last) ∷ regions) x e = elim (Bool-cases (leb first x && leb x last)) [
  | inl here ↦ absurd (some_none (rw here at e))
  | inr there ↦ rw there (region_end-none regions x (rw there at e))
]
  where
    some_none : {n : ℕ} → some n ≡ none → ⊥
    some_none e = cc

-- the region of an address holds the addresses from there to its end
region_end-some :
    (regions : List Region) (x end : ℕ)
    → region_end regions x ≡ some end
    → (x ≤ end) × ((y : ℕ) → x ≤ y → y ≤ end → covered regions y ≡ true)
unfolding region_end covered
region_end-some [] x end e = absurd (none_some e)
  where
    none_some : {n : ℕ} → none ≡ some n → ⊥
    none_some e = cc
region_end-some ((first, last) ∷ regions) x end e = elim (Bool-cases (leb first x && leb x last)) [
  | inl here ↦
      let found : some last ≡ some end = rw here at e in
      let same : last ≡ end = cc in (ground (arith, here), λ y p q. ground (arith, here))
  | inr there ↦
      let (order, rest) = region_end-some regions x end (rw there at e) in
      (order, λ y p q. ground (arith, rest y p q))
]

-- where the first unmapped byte of a range from `address` to `stop` is: nowhere, or at `r`
pub record IsFirstUnmapped (regions : List Region) (address stop r : ℕ) : Type 0 where
  pub from : address ≤ r
  pub to : r < stop
  pub unmapped : covered regions r ≡ false
  pub is_first : (x : ℕ) → address ≤ x → x < r → covered regions x ≡ true

abbrev pub AllMapped : List Region → ℕ → ℕ → Type 0
AllMapped regions address stop = (x : ℕ) → address ≤ x → x < stop → covered regions x ≡ true

module _ (regions : List Region) (address stop : ℕ) where
  unmapped_from_lem :
      (fuel current : ℕ)
      → address ≤ current
      → stop < fuel + current
      → AllMapped regions address current
      → ((unmapped_from fuel regions address stop current ≡ address)
          × AllMapped regions address stop)
        ⊎ IsFirstUnmapped regions address stop (unmapped_from fuel regions address stop current)
  unfolding unmapped_from
  unmapped_from_lem zero current order enough mapped = inl (refl, λ x p q. mapped x p (omega arith))
  unmapped_from_lem (suc fuel) current order enough mapped = elim (Bool-cases (ltb current stop)) [
    | inr done ↦ rw done (inl (refl, λ x p q. mapped x p (ground (arith, done))))
    | inl more ↦ elim (Option-cases (region_end regions current)) [
      | inl none_there ↦
          rw (more, none_there)
            (inr (record {
              from = order;
              to = ltb→lt current stop more;
              unmapped = region_end-none regions current none_there;
              is_first = mapped;
            }))
      | inr (end, found) ↦
          let (past, inside) = region_end-some regions current end found in
          rw (more, found)
            (unmapped_from_lem fuel (end + 1) (omega arith) (omega arith) (λ x p q.
              elim (Bool-cases (ltb x current)) [
                | inl before ↦ mapped x p (ltb→lt x current before)
                | inr after ↦ inside x (ground (arith, after)) (omega arith)
              ]))
    ]
  ]

-- The address of a fault of an access is the first byte of the access that no region holds, and the
-- start of the access if regions hold all of it.
pub get_first_unmapped_lem :
    (regions : List Region) (address size : ℕ)
    → ((get_first_unmapped regions address size ≡ address)
        × AllMapped regions address (address + size))
      ⊎ IsFirstUnmapped regions address (address + size) (get_first_unmapped regions address size)
unfolding get_first_unmapped
get_first_unmapped_lem regions address size =
    unmapped_from_lem regions address (address + size) (suc size) address (omega arith)
      (omega arith) (λ x p q. absurd (omega arith))
