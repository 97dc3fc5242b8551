-- ===== src/Index/Load/RoundTrip.antt =====
-- The header that `IndexWriter` writes is the header that `load` reads.
use rinha_rust_tree.Prelude.{
  ℕ, ◌+◌, ◌*◌, ◌%◌, ◌^◌, ◌<◌, ◌≡◌, refl, true, false, List, [], ◌++◌, arith, leb, length, drop, All,
}
use rinha_rust_tree.Prelude.Int.{ℤ, pos, to_bits, eqb_ℤ}
use rinha_rust_tree.Index.Words.{le_bytes, wrap16}
use rinha_rust_tree.Index.Table.{TreePredicate}
use rinha_rust_tree.Index.Reader.{ok, read_header, skip_cuts, Header}
use rinha_rust_tree.Index.Reader.RoundTrip.{
  Left, Fits16, Fits32, IsPredicate, predicates_bytes, write_predicates-append, read_i16_lem,
  read_i32_lem, read_predicates_lem,
}
use rinha_rust_tree.Index.Writer.{
  Buffer, magic_v5, write_i32, write_i16, write_header, write_partition_count, write_node_count,
  write_block_count, overwrite_i32,
}
use rinha_rust_tree.Index.Load.{Settings, load_header, from_header, reserve, scheme_id_learned_tree}

abbrev i32_bytes : ℤ → List ℕ
i32_bytes v = le_bytes 4 (to_bits (2 ^ 32) v)

abbrev i16_bytes : ℤ → List ℕ
i16_bytes v = le_bytes 2 (to_bits (2 ^ 16) v)

-- what the builder tells the writer
pub record Counts : Type 0 where
  pub scale : ℤ
  pub references : ℕ
  pub partitions : ℕ
  pub nodes : ℕ
  pub blocks : ℕ
  pub tree_depth : ℕ

-- The bytes of a header, with all of its counts.
abbrev pub header_bytes : Counts → List TreePredicate → List ℕ
header_bytes c predicates =
    magic_v5
    ++ (i32_bytes c.scale
        ++ (i32_bytes (pos 16)
            ++ (i32_bytes (pos c.references)
                ++ (i32_bytes (pos c.partitions)
                    ++ (i32_bytes (pos c.nodes)
                        ++ (i32_bytes (pos c.blocks)
                            ++ (i16_bytes (pos 2)
                                ++ (i16_bytes (pos c.tree_depth)
                                    ++ (i16_bytes (pos 0)
                                        ++ (i16_bytes (pos 0)
                                            ++ (i16_bytes (pos (length predicates))
                                                ++ predicates_bytes predicates)))))))))))

-- The writer's calls for the header and the counts.
abbrev pub written_header : Counts → List TreePredicate → Buffer → Buffer
written_header c predicates body = write_block_count (pos c.blocks) (
    write_node_count (pos c.nodes) (
      write_partition_count (pos c.partitions) (
        write_header c.scale (pos c.references) scheme_id_learned_tree (pos c.tree_depth) predicates
          []
        ++ body)))

pub written_header_lem :
    (c : Counts) (predicates : List TreePredicate) (body : List ℕ)
    → length predicates < 2 ^ 15
    → written_header c predicates body ≡ header_bytes c predicates ++ body
unfolding write_header write_block_count write_node_count write_partition_count overwrite_i32
    write_i32 write_i16 le_bytes
written_header_lem c predicates body h =
    let e : wrap16 (pos (length predicates)) ≡ pos (length predicates) = ground arith in
    rw (write_predicates-append, e) refl

-- The values that the header holds fit in their fields.
pub record IsWritable (c : Counts) (predicates : List TreePredicate) : Type 0 where
  pub scale : Fits32 c.scale
  pub references : c.references < 2 ^ 31
  pub partitions : c.partitions < 2 ^ 31
  pub nodes : c.nodes < 2 ^ 31
  pub blocks : c.blocks < 2 ^ 31
  pub tree_depth : c.tree_depth < 2 ^ 15
  pub few : length predicates < 2 ^ 15
  pub valid : All IsPredicate predicates

abbrev pub loaded_header : Counts → List TreePredicate → Header
loaded_header c predicates = record {
  scale = c.scale;
  dims = 16;
  reference_count = c.references;
  partition_count = c.partitions;
  node_count = c.nodes;
  total_blocks = c.blocks;
  scheme_id = pos 2;
  scheme_param = c.tree_depth;
  legacy_cuts = 0;
  predicate_count = length predicates;
}

abbrev i32_rest : Counts → List ℕ → List ℕ
i32_rest c rest =
    i32_bytes (pos 16)
    ++ (i32_bytes (pos c.references)
        ++ (i32_bytes (pos c.partitions)
            ++ (i32_bytes (pos c.nodes) ++ (i32_bytes (pos c.blocks) ++ rest))))

header_bytes-rest :
    (c : Counts) (predicates : List TreePredicate) (body : List ℕ)
    → drop 8 (header_bytes c predicates ++ body)
      ≡ i32_bytes c.scale
        ++ i32_rest c (
            i16_bytes (pos 2)
            ++ (i16_bytes (pos c.tree_depth)
                ++ (i16_bytes (pos 0)
                    ++ (i16_bytes (pos 0)
                        ++ (i16_bytes (pos (length predicates))
                            ++ (predicates_bytes predicates ++ body))))))
unfolding le_bytes
header_bytes-rest c predicates body = refl

fits32 : (n : ℕ) → n < 2 ^ 31 → Fits32 (pos n) × (n % 2 ^ 64 ≡ n)
fits32 n h = ((omega arith, omega arith), omega arith)

fits16 : (n : ℕ) → n < 2 ^ 15 → Fits16 (pos n) × (n % 2 ^ 64 ≡ n)
fits16 n h = ((omega arith, omega arith), omega arith)

eqb_ℤ-refl : (z : ℤ) → eqb_ℤ z z ≡ true
eqb_ℤ-refl z = ground arith

module _ (c : Counts) (predicates : List TreePredicate) (w : IsWritable c predicates)
    (bytes body : List ℕ) (whole : bytes ≡ header_bytes c predicates ++ body) where
  read_header_lem :
      (read_header bytes 8 ≡ ok (loaded_header c predicates, 42))
      × Left bytes 42 (predicates_bytes predicates ++ body)
  unfolding read_header
  read_header_lem =
      let rest0 = predicates_bytes predicates ++ body in
      let rest1 = i16_bytes (pos (length predicates)) ++ rest0 in
      let rest2 = i16_bytes (pos 0) ++ rest1 in
      let rest3 = i16_bytes (pos 0) ++ rest2 in
      let rest4 = i16_bytes (pos c.tree_depth) ++ rest3 in
      let rest5 = i16_bytes (pos 2) ++ rest4 in
      let rest6 = i32_bytes (pos c.blocks) ++ rest5 in
      let rest7 = i32_bytes (pos c.nodes) ++ rest6 in
      let rest8 = i32_bytes (pos c.partitions) ++ rest7 in
      let rest9 = i32_bytes (pos c.references) ++ rest8 in
      let rest10 = i32_bytes (pos 16) ++ rest9 in
      let start : Left bytes 8 (i32_bytes c.scale ++ rest10) =
        rw whole (header_bytes-rest c predicates body) in
      let (e0, h0) = read_i32_lem bytes 8 c.scale rest10 start w.scale in
      let (e1, h1) = read_i32_lem bytes 12 (pos 16) rest9 h0 (fits32 16 (omega arith)).0 in
      let (e2, h2) =
        read_i32_lem bytes 16 (pos c.references) rest8 h1 (fits32 c.references w.references).0 in
      let (e3, h3) =
        read_i32_lem bytes 20 (pos c.partitions) rest7 h2 (fits32 c.partitions w.partitions).0 in
      let (e4, h4) = read_i32_lem bytes 24 (pos c.nodes) rest6 h3 (fits32 c.nodes w.nodes).0 in
      let (e5, h5) = read_i32_lem bytes 28 (pos c.blocks) rest5 h4 (fits32 c.blocks w.blocks).0 in
      let (e6, h6) = read_i16_lem bytes 32 (pos 2) rest4 h5 (fits16 2 (omega arith)).0 in
      let (e7, h7) =
        read_i16_lem bytes 34 (pos c.tree_depth) rest3 h6 (fits16 c.tree_depth w.tree_depth).0 in
      let (e8, h8) = read_i16_lem bytes 36 (pos 0) rest2 h7 (fits16 0 (omega arith)).0 in
      let (e9, h9) = read_i16_lem bytes 38 (pos 0) rest1 h8 (fits16 0 (omega arith)).0 in
      let (e10, h10) =
        read_i16_lem bytes 40 (pos (length predicates)) rest0 h9
          (fits16 (length predicates) w.few).0 in
      (
        rw
            (
              e0,
              e1,
              e2,
              e3,
              e4,
              e5,
              e6,
              e7,
              e8,
              e9,
              e10,
              (fits32 c.references w.references).1,
              (fits32 c.partitions w.partitions).1,
              (fits32 c.nodes w.nodes).1,
              (fits32 c.blocks w.blocks).1,
              (fits16 c.tree_depth w.tree_depth).1,
              (fits16 (length predicates) w.few).1,
            )
            refl,
        h10,
      )

  pub load_header_lem :
      (settings : Settings)
      → settings.scale ≡ c.scale
      → (load_header settings bytes 8
          ≡ ok (
            (
              loaded_header c predicates,
              record { tree_depth = c.tree_depth; tree_predicates = predicates },
            ),
            42 + 4 * length predicates,
          ))
        × Left bytes (42 + 4 * length predicates) body
  unfolding load_header skip_cuts reserve from_header
  load_header_lem settings same =
      let (e0, h0) = read_header_lem in
      let (e1, h1) = read_predicates_lem bytes 42 predicates body h0 w.valid in
      let small : leb (2 ^ 63) (length predicates * 4) ≡ false = ground (arith, w.few) in
      (rw (e0, small, e1, same, eqb_ℤ-refl c.scale) refl, h1)

-- The header, the scheme and the rest of the file come back from what the writer made of them.
pub load_header-written_header :
    (settings : Settings) (c : Counts) (predicates : List TreePredicate) (body : List ℕ)
    → IsWritable c predicates
    → settings.scale ≡ c.scale
    → (load_header settings (written_header c predicates body) 8
        ≡ ok (
          (
            loaded_header c predicates,
            record { tree_depth = c.tree_depth; tree_predicates = predicates },
          ),
          42 + 4 * length predicates,
        ))
      × (drop (42 + 4 * length predicates) (written_header c predicates body) ≡ body)
load_header-written_header settings c predicates body w same =
    load_header_lem c predicates w (written_header c predicates body) body
      (written_header_lem c predicates body w.few) settings same
