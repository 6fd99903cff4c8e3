-- ===== src/Engine/Cache.antt =====
-- What run_prefill and run_decode of src/paged_engine.cpp do to the cache: they write into the
-- blocks of one table, and take or give back none.
use vllm_cpp.Prelude.{
  ℕ, zero, suc, ◌-◌, ◌/◌, ◌<◌, List, [], ◌∷◌, length, ℤ, pos, negsuc, below, All, modify, get_elem?,
  get_elem?-modify_ne, All-modify, some, Option-cases, some-injective, Bool-cases, ltb, ◌≡◌, refl,
  ap, ◌∙◌, inl, inr, arith,
}
use vllm_cpp.Config.{block_size}
use vllm_cpp.Float.{Floats}
use vllm_cpp.KvCache.Pool.{BlockPool, KvsBlock, get_raw, free_count, count_free}
use vllm_cpp.KvCache.Pool.Refs.{refs, IsConsistent}
use vllm_cpp.KvCache.Pool.Effects.{count_id}
use vllm_cpp.KvCache.Storage.{write_kv, write_block}
use vllm_cpp.Attention.{write_kv_token}
use vllm_cpp.Engine.Model.{Qwen36TransformerLayer, Qwen36Model, Buffers}
use vllm_cpp.Engine.Layer.{project, project_k, project_v}

-- The counts and flags stay, and so do all blocks that the table does not name.
pub record OnlyWrites (table : List ℤ) (p p' : BlockPool) : Type 0 where
  pub same_refs : (j : ℕ) → refs p'.blocks j ≡ refs p.blocks j
  pub consistent : All IsConsistent p.blocks → All IsConsistent p'.blocks
  pub same_free : free_count p' ≡ free_count p
  pub same_block : (j : ℕ) → count_id j table ≡ 0 → get_elem? p'.blocks j ≡ get_elem? p.blocks j

pub OnlyWrites-refl : (table : List ℤ) (p : BlockPool) → OnlyWrites table p p
OnlyWrites-refl table p = record {
  same_refs = λ j. refl;
  consistent = λ h. h;
  same_free = refl;
  same_block = λ j h. refl;
}

pub OnlyWrites-trans :
    (table : List ℤ) (p q r : BlockPool)
    → OnlyWrites table p q
    → OnlyWrites table q r
    → OnlyWrites table p r
OnlyWrites-trans table p q r a b = record {
  same_refs = λ j. b.same_refs j ∙ a.same_refs j;
  consistent = λ h. b.consistent (a.consistent h);
  same_free = b.same_free ∙ a.same_free;
  same_block = λ j h. b.same_block j h ∙ a.same_block j h;
}

refs-modify :
    (bs : List KvsBlock) (i j : ℕ) (f : KvsBlock → KvsBlock)
    → ((b : KvsBlock) → (f b).ref_count ≡ b.ref_count)
    → refs (modify bs i f) j ≡ refs bs j
unfolding refs
refs-modify [] i j f h = refl
refs-modify (b ∷ bs) zero zero f h = h b
refs-modify (b ∷ bs) zero (suc j) f h = refl
refs-modify (b ∷ bs) (suc i) zero f h = refl
refs-modify (b ∷ bs) (suc i) (suc j) f h = refs-modify bs i j f h

count_free-modify :
    (bs : List KvsBlock) (i : ℕ) (f : KvsBlock → KvsBlock)
    → ((b : KvsBlock) → (f b).free ≡ b.free)
    → count_free (modify bs i f) ≡ count_free bs
unfolding count_free
count_free-modify [] i f h = refl
count_free-modify (b ∷ bs) zero f h = rw (h b) refl
count_free-modify (b ∷ bs) (suc i) f h = ground (arith, count_free-modify bs i f h)

count_id_pos : (table : List ℤ) (k j : ℕ) → get_elem? table k ≡ some (pos j) → 0 < count_id j table
unfolding count_id
count_id_pos [] k j e = absurd (cc)
count_id_pos (pos i ∷ table) zero j e =
    let same : pos i ≡ pos j = some-injective _ _ e in ground (arith, same)
count_id_pos (negsuc i ∷ table) zero j e = absurd (cc)
count_id_pos (pos i ∷ table) (suc k) j e = omega (arith, count_id_pos table k j e)
count_id_pos (negsuc i ∷ table) (suc k) j e = count_id_pos table k j e

get_raw_id :
    (id layer : ℤ) (p : BlockPool) (i off : ℕ) → get_raw id layer p ≡ some (i, off) → id ≡ pos i
unfolding get_raw
get_raw_id (negsuc n) layer p i off e = absurd (cc)
get_raw_id (pos n) layer p i off e = elim (Bool-cases (ltb n (length p.blocks))) [
  | inl inside ↦ elim (Option-cases (below layer p.num_layers)) [
    | inl none_eq ↦ absurd (let f = rw (inside, none_eq, get_raw) at e in cc)
    | inr (l, some_eq) ↦
        let f = some-injective _ _ (rw (inside, some_eq, get_raw) at e) in ap pos (ap (λ r. r.0) f)
  ]
  | inr outside ↦ absurd (let f = rw (outside, get_raw) at e in cc)
]

module _ (fl : Floats) where
  open fl use {Float}

  -- A row written to a block of the table.
  write_kv-OnlyWrites :
      (table : List ℤ) (k : ℕ) (id layer at : ℤ) (key value : ℕ → Float) (n : ℕ) (p : BlockPool)
      → get_elem? table k ≡ some id
      → OnlyWrites table p (write_kv fl id layer at key value n p)
  unfolding write_kv write_block free_count
  write_kv-OnlyWrites table k id layer at key value n p e =
      elim (Option-cases (below at block_size)) [
        | inl off_row ↦ rw (off_row, write_kv) (OnlyWrites-refl table p)
        | inr (t, row) ↦ elim (Option-cases (get_raw id layer p)) [
          | inl off_pool ↦ rw (row, off_pool, write_kv) (OnlyWrites-refl table p)
          | inr ((i, off), place) ↦
              let id_eq = get_raw_id id layer p i off place in
              let named = count_id_pos table k i (e ∙ ap some id_eq) in
              rw (row, place, write_kv)
                (record {
                  same_refs = λ j. refs-modify p.blocks i j _ (λ b. refl);
                  consistent = λ h. All-modify IsConsistent _ (λ b c. c) p.blocks i h;
                  same_free = count_free-modify p.blocks i _ (λ b. refl);
                  same_block = λ j h.
                      get_elem?-modify_ne p.blocks i j _
                        (λ eq. let h' : count_id i table ≡ 0 = rw eq h in omega arith);
                })
        ]
      ]

  write_kv_token-OnlyWrites :
      (table : List ℤ) (seq_len : ℕ) (layer : ℤ) (key value : ℕ → Float) (p : BlockPool)
      → OnlyWrites table p (write_kv_token fl table seq_len layer key value p)
  unfolding write_kv_token
  write_kv_token-OnlyWrites table seq_len layer key value p =
      elim (Option-cases (get_elem? table ((seq_len - 1) / block_size))) [
        | inl e ↦ rw (e, write_kv_token) (OnlyWrites-refl table p)
        | inr (id, e) ↦
            rw (e, write_kv_token)
              (write_kv-OnlyWrites table ((seq_len - 1) / block_size) id layer _ key value p.kv_dim
                p e)
      ]

  -- The projections of a layer write the key and the value into the table's blocks.
  pub project-OnlyWrites :
      (model : Qwen36Model fl) (layer : Qwen36TransformerLayer fl) (l : ℤ) (table : List ℤ)
      (position seq_len : ℕ) (input : ℕ → Float) (b : Buffers fl) (p : BlockPool)
      → OnlyWrites table p (project fl model layer l table position seq_len input (b, p)).1
  unfolding project project_k project_v
  project-OnlyWrites model layer l table position seq_len input b p =
      OnlyWrites-trans table p _ _ (write_kv_token-OnlyWrites table seq_len l _ _ p)
        (write_kv_token-OnlyWrites table seq_len l _ _ _)
