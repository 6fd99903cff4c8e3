-- ===== src/Engine/Isolation.antt =====
-- run_decode and the layers of run_prefill of src/paged_engine.cpp write only into the blocks of
-- their request.
use vllm_cpp.Prelude.{ℕ, ◌+◌, ◌-◌, ◌*◌, List, [], ◌∷◌, ℤ, pos, arith}
use vllm_cpp.Prelude.Loops.{for_range, for_range_inv}
use vllm_cpp.Float.{Floats}
use vllm_cpp.KvCache.Pool.{BlockPool}
use vllm_cpp.Request.{Request, get_seq_len}
use vllm_cpp.Engine.Model.{Qwen36TransformerLayer, Qwen36Model, Buffers}
use vllm_cpp.Engine.Prefill.{Prefilling, prefill_position, prefill_layers, hidden_row}
use vllm_cpp.Engine.Decode.{decode_layer, decode_layers, run_decode}
use vllm_cpp.Engine.Cache.{OnlyWrites, OnlyWrites-refl, OnlyWrites-trans, project-OnlyWrites}

module _ (fl : Floats) where
  open fl use {Float}

  module _ (sort : List (Float × ℕ) → List (Float × ℕ)) (model : Qwen36Model fl) where
    prefill_position-OnlyWrites :
        (layer : Qwen36TransformerLayer fl) (l : ℤ) (table : List ℤ) (p : ℕ) (s : Prefilling fl)
        → OnlyWrites table s.pool (prefill_position fl sort model layer l table p s).pool
    unfolding prefill_position
    prefill_position-OnlyWrites layer l table p s =
        project-OnlyWrites fl model layer l table p (p + 1)
          (hidden_row fl (p * model.hidden_size) s.all_hidden) s.buffers s.pool

    pub prefill_layers-OnlyWrites :
        (layers : List (Qwen36TransformerLayer fl)) (l : ℕ) (table : List ℤ) (seq_len : ℕ)
        (s : Prefilling fl)
        → OnlyWrites table s.pool (prefill_layers fl sort model layers l table seq_len s).pool
    unfolding prefill_layers
    prefill_layers-OnlyWrites [] l table seq_len s = OnlyWrites-refl table s.pool
    prefill_layers-OnlyWrites (layer ∷ layers) l table seq_len s =
        let s' = for_range seq_len 0 (prefill_position fl sort model layer (pos l) table) s in
        OnlyWrites-trans table s.pool s'.pool _
          (for_range_inv (λ k t. OnlyWrites table s.pool t.pool) seq_len 0 seq_len _ s
            (λ k t lo hi h.
              OnlyWrites-trans table s.pool t.pool _ h
                (prefill_position-OnlyWrites layer (pos l) table k t))
            (omega arith) (OnlyWrites-refl table s.pool))
          (prefill_layers-OnlyWrites layers (l + 1) table seq_len s')

    decode_layer-OnlyWrites :
        (layer : Qwen36TransformerLayer fl) (l : ℤ) (table : List ℤ) (seq_len : ℕ) (b : Buffers fl)
        (p : BlockPool)
        → OnlyWrites table p (decode_layer fl sort model layer l table seq_len (b, p)).1
    unfolding decode_layer
    decode_layer-OnlyWrites layer l table seq_len b p =
        project-OnlyWrites fl model layer l table (seq_len - 1) seq_len b.hidden_out b p

    decode_layers-OnlyWrites :
        (layers : List (Qwen36TransformerLayer fl)) (l : ℕ) (table : List ℤ) (seq_len : ℕ)
        (b : Buffers fl) (p : BlockPool)
        → OnlyWrites table p (decode_layers fl sort model layers l table seq_len (b, p)).1
    unfolding decode_layers
    decode_layers-OnlyWrites [] l table seq_len b p = OnlyWrites-refl table p
    decode_layers-OnlyWrites (layer ∷ layers) l table seq_len b p =
        let s = decode_layer fl sort model layer (pos l) table seq_len (b, p) in
        OnlyWrites-trans table p s.1 _ (decode_layer-OnlyWrites layer (pos l) table seq_len b p)
          (decode_layers-OnlyWrites layers (l + 1) table seq_len s.0 s.1)

    -- Decoding a request changes no block but those of its table, no reference count and not the
    -- number of free blocks.
    pub run_decode-OnlyWrites :
        (r : Float) (req : Request) (b : Buffers fl) (p : BlockPool)
        → OnlyWrites req.block_table p (run_decode fl sort model r req b p).pool
    unfolding run_decode
    run_decode-OnlyWrites r req b p =
        decode_layers-OnlyWrites model.layers 0 req.block_table (get_seq_len req) _ p
