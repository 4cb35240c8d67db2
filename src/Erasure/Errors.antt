-- ===== src/Erasure/Errors.antt =====
-- The inputs that erasure.rs rejects.
use cyxcloud.Prelude.{ℕ, ◌<◌, ◌≡◌, ◌↔◌, [], arith}
use cyxcloud.Prelude.Slices.{div_ceil}
use cyxcloud.Prelude.Results.{ok, err}
use cyxcloud.Error.{panics}
use cyxcloud.Erasure.{ErasureEncoder, ErasureConfig, new_config, encode, calculate_shard_size}

-- `ErasureConfig::new` accepts exactly the pairs of positive numbers, and keeps them.
pub new_config_iff :
    (d p : ℕ) (c : ErasureConfig)
    → (new_config d p ≡ ok c) ↔ ((0 < d) × (0 < p) × (c.data_shards ≡ d) × (c.parity_shards ≡ p))
unfolding new_config
new_config_iff d p c = (λ h. ground arith, λ h. ground arith)

-- An empty input makes `encode` panic with every encoder that has data shards: the shards would have
-- size 0, and `chunks` does not take that.
pub encode_empty : (e : ErasureEncoder) → 0 < e.config.data_shards → encode e [] ≡ err panics
unfolding encode calculate_shard_size
encode_empty e h = let z : div_ceil 0 e.config.data_shards ≡ 0 = grind arith in ground arith
