-- ===== src/Partition/Selection.antt =====
-- Which partition is selected.
use rkusb.Prelude.{
  ℕ, ◌≡◌, ◌⊎◌, refl, ap, List, [], ◌∷◌, ◌++◌, Bool, true, false, ok, err, Bool-cases, inl, inr,
}
use rkusb.Partition.{Partition, SelectPartitionError, find_partition}

-- No entry is accepted.
abbrev Refused : (ℕ × Partition → Bool) → List (ℕ × Partition) → Type 0
Refused accepts [] = Unit {0}
Refused accepts (entry ∷ entries) = (accepts entry ≡ false) × Refused accepts entries

-- A search gives the partition of the first entry that is accepted, or, if it fails, no entry is.
find_partition-first :
    (accepts : ℕ × Partition → Bool) (e : SelectPartitionError) (entries : List (ℕ × Partition))
    → ((find_partition accepts e entries ≡ err e) × Refused accepts entries)
      ⊎ ((before : List (ℕ × Partition)) × (entry : ℕ × Partition) × (after : List (ℕ × Partition))
          × (find_partition accepts e entries ≡ ok entry.1)
          × (entries ≡ before ++ (entry ∷ after))
          × (accepts entry ≡ true)
          × Refused accepts before)
unfolding find_partition
find_partition-first accepts e [] = inl (refl, tt)
find_partition-first accepts e (entry ∷ entries) = elim (Bool-cases (accepts entry)) [
  | inl hit ↦ inr ([], entry, entries, rw hit, refl, hit, tt)
  | inr miss ↦ elim (find_partition-first accepts e entries) [
    | inl (failed, refused) ↦ inl (rw (miss, failed), (miss, refused))
    | inr (before, found, after, result, split, hit, refused) ↦ inr (
      entry ∷ before,
      found,
      after,
      rw (miss, result),
      ap (λ l. entry ∷ l) split,
      hit,
      (miss, refused),
    )
  ]
]
