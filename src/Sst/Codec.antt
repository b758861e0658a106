-- ===== src/Sst/Codec.antt =====
-- include/elysiumkv/options.hpp: the codecs of a block.
pub data Compression : Type 0 where
  none lz4 zstd : Compression
