-- ===== src/KvCache/Pool/Find.antt =====
-- The search of `BlockPool::alloc`, and the free count.
use vllm_cpp.Prelude.{
  ℕ, zero, suc, ◌+◌, ◌<◌, ◌≤◌, ◌≡◌, refl, true, false, none, some, List, [], ◌∷◌, arith, modify,
  get_elem?, length, Option-cases, Bool-cases, inl, inr, subst, some-injective,
}
use vllm_cpp.KvCache.Pool.{KvsBlock, find_free, take_block, count_free}

pub find_free-none : (bs : List KvsBlock) → find_free bs ≡ none → count_free bs ≡ 0
unfolding find_free count_free
find_free-none [] h = refl
find_free-none (b ∷ bs) h = ground (arith, find_free-none bs)

-- The block found is free, in range, and no block before it is free.
pub record IsFirstFree (bs : List KvsBlock) (i : ℕ) : Type 0 where
  pub block : KvsBlock
  pub at : get_elem? bs i ≡ some block
  pub is_free : block.free ≡ true
  pub in_range : i < length bs
  pub before : (j : ℕ) (b : KvsBlock) → j < i → get_elem? bs j ≡ some b → b.free ≡ false

IsFirstFree-here : (b : KvsBlock) (bs : List KvsBlock) → b.free ≡ true → IsFirstFree (b ∷ bs) 0
IsFirstFree-here b bs e = record {
  block = b;
  at = refl;
  is_free = e;
  in_range = omega arith;
  before = λ j b' h. absurd (omega arith);
}

IsFirstFree-there :
    (b : KvsBlock) (bs : List KvsBlock) (i : ℕ)
    → b.free ≡ false
    → IsFirstFree bs i
    → IsFirstFree (b ∷ bs) (suc i)
IsFirstFree-there b bs i e f = record {
  block = f.block;
  at = f.at;
  is_free = f.is_free;
  in_range = omega arith;
  before = earlier;
}
  where
    earlier : (j : ℕ) (b' : KvsBlock) → j < suc i → get_elem? (b ∷ bs) j ≡ some b' → b'.free ≡ false
    earlier zero b' h g = subst (λ (x : KvsBlock). x.free ≡ false) (some-injective _ _ g) e
    earlier (suc j) b' h g = f.before j b' (omega arith) g

pub find_free-some : (bs : List KvsBlock) (i : ℕ) → find_free bs ≡ some i → IsFirstFree bs i
unfolding find_free
find_free-some [] i h = absurd (cc)
find_free-some (b ∷ bs) i h = elim (Bool-cases b.free) [
  | inl e ↦ subst (IsFirstFree (b ∷ bs)) (ground arith) (IsFirstFree-here b bs e)
  | inr e ↦ elim (Option-cases (find_free bs)) [
    | inl n ↦ absurd (ground arith)
    | inr (k, s) ↦
        subst (IsFirstFree (b ∷ bs)) (ground arith)
          (IsFirstFree-there b bs k e (find_free-some bs k s))
  ]
]

-- A pool with a free block has a first one.
pub find_free_total : (bs : List KvsBlock) → 0 < count_free bs → (i : ℕ) × (find_free bs ≡ some i)
find_free_total bs h = elim (Option-cases (find_free bs)) [
  | inl n ↦ absurd (omega (arith, find_free-none bs n))
  | inr found ↦ found
]

-- Taking a free block leaves one fewer.
pub count_free-take_block :
    (bs : List KvsBlock) (i : ℕ) {b : KvsBlock}
    → get_elem? bs i ≡ some b
    → b.free ≡ true
    → count_free (modify bs i take_block) + 1 ≡ count_free bs
unfolding count_free
count_free-take_block [] i h e = absurd (cc)
count_free-take_block (x ∷ bs) zero h e = ground arith
count_free-take_block (x ∷ bs) (suc i) h e = omega (arith, count_free-take_block bs i h e)

pub count_free_le : (bs : List KvsBlock) → count_free bs ≤ length bs
unfolding count_free
count_free_le [] = omega arith
count_free_le (b ∷ bs) = ground (arith, count_free_le bs)
