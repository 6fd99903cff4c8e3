-- ===== src/Lib.antt =====
-- vllm-cpp serves a language model: requests queue at a scheduler, which gives them blocks of a
-- paged KV cache and forms batches; the engine runs the model over a batch, writes keys and values
-- into the blocks, attends over them and reports the new tokens back. This library models the
-- tokenizer, the scheduler, the cache, the attention over it, the engine with its steps, the
-- forward pass without a cache pool, the sampling, the prompts of requests and the formats of
-- quantized numbers.
--
-- Prelude: shared names, lists and maps over native numbers, counted loops, buffers as functions
-- of the index. Config and Request: src/config.h and src/request.h. Float: binary32 numbers, a
-- parameter with the laws of storage only, so every theorem about attention or products holds
-- operation by operation, without laws of rounding.
--
-- KvCache.Pool: BlockPool of src/kv_cache_manager.cpp, one function per method; each method holds
-- the pool's mutex, so it is one step. KvCache.Manager: the block lists of KVCacheManager.
-- KvCache.Codec and KvCache.Storage: the conversions and the access to rows of bytes, get_k,
-- get_v, write_kv and read_kv. A pointer out of range of its vector, which the source must not
-- follow, reads as zero.
--
-- Scheduler: src/scheduler.cpp. State has the record and what happens to the blocks of one
-- request, Admit the phases 1 and 2 of schedule() with preempt_requests, Batch the phases 3 and 4,
-- Calls the other public methods and histories of calls. std::map is an association list, the
-- pointers to block tables in a batch are the ids of the requests that own them. The children
-- Ownership, Everywhere, Checkpoints, Limits, Progress and Fitting hold the proofs: Ownership
-- counts, for each block, the references in the pool against the tables of the requests.
--
-- Quantization: src/quantization.h and src/quantization.cpp. Fp8 has the 8-bit floats, Int4 the
-- packed weights, Tensor the tensor that holds either and the tiled product. Tensor: the matrix of
-- src/model.h, plain or quantized. Attention: src/paged_attention.cpp, and compute_attention of
-- src/paged_engine.cpp.
--
-- Engine: src/paged_engine.cpp, where std::sort is a parameter. Engine has the arithmetic,
-- Engine.Model the weights and the buffers, Engine.Layer what prefill and decode share,
-- Engine.Prefill and Engine.Decode run_prefill and run_decode, Engine.Step submit and step,
-- Engine.Calls the constructor and histories of calls. The scheduler hands out copies of requests:
-- a change of a copy that nothing stores is a value that the model drops. Where the source passes
-- one buffer as input and output, the model has a definition of its own. Engine.Cache, Isolation,
-- Growth, Ownership and History hold the proofs: what a step writes, takes and loses.
--
-- Tokenizer: the tokenizer of src/model.cpp over lists of bytes, with std::to_string as a
-- parameter. Its loop over characters has one round per byte, since each round takes a byte at
-- least; the 200 rounds of merging are the source's own. Sampling: sample_token and generate_cpu
-- of src/model.cpp, where std::sort, the random number of each round and the model are parameters.
--
-- Forward: forward_cpu of src/model.cpp over the arithmetic of Engine and Attention, which
-- src/model.cpp has in the same words, where a weight is a Tensor, plain or quantized, and the
-- down projection has a definition of its own, since it writes over its input. Forward.Rows,
-- Agreement and Causal hold the proofs: what a position writes, and what it reads.
--
-- Json: src/json_utils.h and parse_json_string of src/model.cpp, where a position in a text is the
-- rest of the text from there on, and printing and reading numbers are parameters. Chat:
-- src/chat_prompt.h. Http: src/http_utils.h, where the stream is the text left to read and an
-- exception is none. Each round of their loops takes a byte at least, so as many rounds as bytes
-- are enough.
--
-- Words have their width written out. The loop that normalizes a subnormal half has ten rounds of
-- fuel, one for each bit of its fraction, the loops over texts have the rounds named above, and
-- every other loop is a counted one or runs over a list. Sizes and lengths are numbers without an
-- upper bound: that an int32_t does not overflow is not modelled.
--
-- Not modelled: the loading of model files in src/model.cpp, the loader of quantized weights, the
-- server, the runners, the MLX and the CUDA backends. The last are file and network access or
-- calls of other libraries.
pub mod Prelude
pub mod Config
pub mod Float
pub mod KvCache
pub mod Request
pub mod Scheduler
pub mod Quantization
pub mod Attention
pub mod Engine
pub mod Tokenizer
pub mod Forward
pub mod Sampling
pub mod Json
pub mod Chat
pub mod Http
pub mod Tensor
pub mod Tests
