-- ===== src/HandleTable/Laws.antt =====
-- What one operation of the handle table does to every handle.
use xgameruntime_rs.Base.{
  ℕ, ◌+◌, ◌<◌, ◌≤◌, ◌≡◌, refl, ◌≢◌, none, some, [], ◌∷◌, ◌==◌, if◌then◌else◌, arith, u64_mod,
}
use xgameruntime_rs.Base.Map.{Map, lookup, insert, remove, lookup-insert, lookup-remove}
use xgameruntime_rs.HandleTable.{HandleTable, new, create, get, close}

module _ {ℓ} {T : Type ℓ} where
  -- Every entry lies under a handle that was issued: neither 0 nor one that is still to come.
  abbrev pub Issued : ℕ → Map T → Type 0
  Issued n [] = Unit
  Issued n (e ∷ m) = (0 < e.key) × (e.key < n) × Issued n m

  pub record IsValid (t : HandleTable T) : Type 0 where
    pub positive : 0 < t.next
    pub in_range : t.next < u64_mod
    pub issued : Issued t.next t.entries

  Issued-mono : {n p : ℕ} (m : Map T) → n ≤ p → Issued n m → Issued p m
  Issued-mono [] h i = tt
  Issued-mono (e ∷ m) h i = (i.0, omega arith, Issued-mono m h i.2)

  Issued-remove : (n k : ℕ) (m : Map T) → Issued n m → Issued n (remove k m)
  unfolding remove
  Issued-remove n k [] i = tt
  Issued-remove n k (e ∷ m) i = ground (arith, Issued-remove n k m i.2)

  Issued-insert : (n : ℕ) (v : T) (m : Map T) → 0 < n → Issued n m → Issued (n + 1) (insert n v m)
  unfolding insert
  Issued-insert n v m h i = (
    h,
    omega arith,
    Issued-mono {n = n} {p = n + 1} (remove n m) (omega arith) (Issued-remove n n m i),
  )

  pub lookup_unissued : (n k : ℕ) (m : Map T) → Issued n m → n ≤ k → lookup k m ≡ none
  unfolding lookup
  lookup_unissued n k [] i h = refl
  lookup_unissued n k (e ∷ m) i h = ground (arith, lookup_unissued n k m i.2)

  pub new-IsValid : IsValid new
  unfolding new
  new-IsValid = record { positive = omega arith; in_range = omega arith; issued = tt }

  pub create-IsValid :
      (t : HandleTable T) (v : T) → IsValid t → t.next + 1 < u64_mod → IsValid (create t v).1
  unfolding create
  create-IsValid t v h r = ground (arith, Issued-insert t.next v t.entries h.positive h.issued)

  pub close-IsValid : (t : HandleTable T) (k : ℕ) → IsValid t → IsValid (close t k)
  unfolding close
  close-IsValid t k h = ground (arith, Issued-remove t.next k t.entries h.issued)

  pub create_next : (t : HandleTable T) (v : T) → (create t v).0 ≡ t.next
  unfolding create
  create_next t v = refl

  -- A handle that resolves is not the next one to be issued.
  pub get-ne_next : (t : HandleTable T) (k : ℕ) (v : T) → IsValid t → get t k ≡ some v → t.next ≢ k
  unfolding get
  get-ne_next t k v h e = ground (arith, lookup_unissued t.next t.next t.entries h.issued)

  -- On a valid table, a new handle is not 0, resolves to its object, did not resolve before, and
  -- no other handle changes.
  pub get-create :
      (t : HandleTable T) (v : T) (k : ℕ)
      → IsValid t
      → (get (create t v).1 k ≡ (if t.next == k then some v else get t k))
        × ((create t v).0 ≢ 0)
        × (get t (create t v).0 ≡ none)
  unfolding create get
  get-create t v k h =
      ground (
        arith,
        lookup-insert t.next k v t.entries,
        lookup_unissued t.next t.next t.entries h.issued,
      )

  -- A closed handle resolves no more, and no other handle changes.
  pub get-close :
      (t : HandleTable T) (k j : ℕ) → get (close t k) j ≡ (if k == j then none else get t j)
  unfolding close get
  get-close t k j = ground (arith, lookup-remove k j t.entries)
