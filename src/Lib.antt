-- ===== src/Lib.antt =====
-- elysiumkv is an embedded key-value store: a log-structured merge tree whose sorted tables are
-- objects in blob stores and whose manifest is a log of edits. This library models the parts that
-- decide what bytes mean and which files count, and proves them right.
--
-- How the parts interact. A table is a sequence of framed blocks with a footer at its end; the
-- footer and the frames carry checksums. A version is the set of tables at one moment, sorted into
-- levels; an edit turns a version into the next one and is recorded in the manifest as a framed
-- block. Reads, compaction and maintenance ask a version which of its files matter. Files carry
-- watermarks, from which a recovery computes where to resume. Each file has a home in one of the
-- configured tiers of stores, by its age. Readers hold versions, and the set of versions deletes an
-- obsolete object only when no version that is held references it. A compaction rewrites files of
-- a level with those they meet below. A scan merges the tables, each
-- sorted level as one run of files; blocks that are read stay in a cache that is charged to a budget.
--
-- Files and the source they model, one function per function of the source:
--   Status               include/elysiumkv/status.hpp (Status, Result)
--   Slice                include/elysiumkv/slice.hpp (operator<=>, operator==, starts_with,
--                        prefix_upper_bound); a Slice and a std::string are the list of their bytes
--   Sst.Format           src/sst/format.hpp (put_fixed32 to get_varint64)
--   Sst.Ranges           src/sst/format.hpp (RangeTombstone, merge_ranges, clip_ranges)
--   Sst.Crc              src/sst/crc32c.cpp (make_table, crc32c_table, crc32c)
--   Sst.Codec, Framing   src/sst/compression.cpp (frame_block, unframe_block)
--   Sst.Footer           src/sst/footer.hpp, footer.cpp (encode, decode)
--   Sst.Bloom            src/sst/bloom.hpp, bloom.cpp (BloomBuilder, bloom_may_contain)
--   Sst.Block            src/sst/block_builder.cpp (BlockBuilder) and block_reader.cpp (BlockIterator;
--                        Seek: seek, prev, seek_for_prev, seek_to_last)
--   Sst.Iterator         src/sst/internal_iterator.hpp (InternalIterator)
--   Sst.Concat           src/sst/concat_iterator.cpp (ConcatIterator)
--   Compact.Merging      src/compact/merging_iterator.cpp (MergingIterator)
--   Compact.Picker       src/compact/picker.cpp (Plan: Compaction, and pick_compaction after the choice
--                        of the level)
--   Cache.Budget         include/elysiumkv/memory_budget.hpp, src/util/budget_charge.hpp
--   Cache.ShardedLru     src/cache/sharded_lru.cpp (ShardedLruBlockCache; Shed: evict_file,
--                        evict_at_least, approximate_bytes, the destructor)
--   Db.LevelConfig       src/db/level_config.cpp (geometric, resolve_levels)
--   Blob.Placement       src/blob/placement.cpp, tier.hpp and src/util/jitter.hpp (resolve_tiers,
--                        placement, jitter_offset)
--   Version.Watermark    src/version/watermark.hpp
--   Version.Metadata     src/version/version_edit.hpp (FileMetadata, VersionEdit, VersionSnapshot)
--   Version.Fields, Floor, Edit   src/version/version_edit.cpp (the put_ and get_ functions, and
--                        the encoding and decoding of edits and snapshots)
--   Version.Levels       src/version/version.hpp, version.cpp (the queries)
--   Version.Apply        src/version/version.cpp (Version::apply)
--   Version.Set          src/version/version_set.cpp (install, allocate_file_number,
--                        observe_file_number, collect_obsolete, and apply after the edit is recorded)
-- Base holds the shared lists, tests, bits and sorting. Children of a module hold its proofs, and
-- Sst.Sources is the source in memory that the merging and concat iterators are run on.
--
-- State and errors. A function that changes an object returns the new one; one that appends to
-- `out` returns what `out` becomes; a reader that advances a pointer returns the rest of the bytes.
-- Result is `value` or `unexpected` with a status; a reader that returns false is `none`.
--
-- A critical section of the version set is one step, and Version.Set.Safety has the interleavings as
-- a relation. An operation of the cache is one step too, though the source locks shard by shard and
-- charges the budget after: Cache.ShardedLru.Runs has the sequential runs. An iterator is a record of
-- operations over the states of any implementation.
--
-- Bounds. Numbers are natural numbers; the integer readers cut to 32 or 64 bits as the source does,
-- and the theorems name the bounds their numbers must keep. Most loops are structural recursion on
-- the bytes or the list they read, or, in the varint writer, recursion on the value that shrinks. On
-- fuel are the loop over a block in Sst.Block.Scan, which needs a turn for each entry; the loops of
-- Sst.Block.Seek, where the search of the restarts is shown to end within as many turns as there are; the loop of the
-- merging iterator that passes hidden entries, shown to end within the entries ahead; the loops of
-- the concat iterator's next and prev, which are given a turn for each file left; the picker's search
-- for overlapping files, which has a turn for each file of the level and one more, shown to be
-- enough; and the evicting loops of the cache, which are given a turn for each entry, shown to be enough.
--
-- Not modelled. LZ4 and Zstandard are the record `Codecs`, and their documented losslessness is the
-- hypothesis `AreLossless`. The hardware CRC32C instructions are not modelled, nor a seed other than
-- 0. Negative levels, which the source skips, do not occur: a level is a natural number. std::sort
-- is an insertion sort by the same comparison; std::lower_bound and std::upper_bound are the
-- position they promise. The filter's hash, a copy of XXH64, is a parameter, and so is the width of
-- the jitter window, which the source computes in doubles. The asserts of the block builder, which a release build drops, are not modelled. The sum of file sizes in a level
-- is not cut to 64 bits. Opening a file of a run is a parameter of Sst.Concat, and what could not be
-- deleted is the result of a parameter of Version.Set. The index of a cache's shard is a search of its
-- list, and the count behind a weak pointer to a version is the number of its readers. Recording edits,
-- rolling generations and recovery are not modelled, nor are the picker's scores, which are doubles
-- (the level they choose is an argument), the database, the compactor, memtables, table readers and writers, stores, encryption and catalogs.
pub mod Base
pub mod Status
pub mod Slice
pub mod Sst
pub mod Version
pub mod Blob
pub mod Compact
pub mod Cache
pub mod Db
