-- ===== src/Index/Load/Records/Nodes.antt =====
-- The records of the nodes that src/index/format.rs writes, read in place by src/index/layout.rs.
use mathlib.Core.List.{append_assoc, append-nil}
use rinha_rust_tree.Prelude.{
  ℕ, zero, suc, ◌+◌, ◌*◌, ◌/◌, ◌^◌, ◌<◌, ◌≡◌, refl, ap, sym, ◌∙◌, List, [], ◌∷◌, ◌++◌, arith,
  length, get_elem?, some, All,
}
use rinha_rust_tree.Prelude.Int.{pos}
use rinha_rust_tree.Index.Words.{le_bytes, as_usize, wrap32}
use rinha_rust_tree.Index.Layout
use rinha_rust_tree.Index.Load.Records.{
  i32_bytes, record_bytes, write_record, i32_at_lem, FitsFields, record_bytes-Reads,
  length-record_bytes, wrap32-bytes,
}
use rinha_rust_tree.Index.Build.{NodeEntry, lanes}
use rinha_rust_tree.Index.Build.File.{write_nodes}
use rinha_rust_tree.Index.Writer.{Buffer, write_i32, write_node_entry}
use rinha_rust_tree.Index.Reader.RoundTrip.{Left, Left-append, Fits16, Fits32}

abbrev node_bytes : NodeEntry → List ℕ
node_bytes node =
    record_bytes (i32_bytes node.left) node.right (wrap32 (pos (node.start / lanes)))
      (wrap32 (pos node.len)) node.mn node.mx

unfoldable nodes_bytes : List NodeEntry → List ℕ
nodes_bytes [] = []
nodes_bytes (node ∷ nodes) = node_bytes node ++ nodes_bytes nodes

write_nodes-append :
    (nodes : List NodeEntry) (buf : Buffer) → write_nodes nodes buf ≡ buf ++ nodes_bytes nodes
unfolding write_nodes nodes_bytes
write_nodes-append [] buf = sym (append-nil buf)
write_nodes-append (node ∷ nodes) buf =
    let here =
      write_record (i32_bytes node.left) node.right (wrap32 (pos (node.start / lanes)))
        (wrap32 (pos node.len)) node.mn node.mx buf in
    write_nodes-append nodes _
    ∙ ap (λ out. out ++ nodes_bytes nodes) (unfold write_node_entry in unfold write_i32 in here)
    ∙ append_assoc buf (node_bytes node) (nodes_bytes nodes)

-- A node fits in its record.
pub record FitsRecord (node : NodeEntry) : Type 0 where
  pub left : Fits32 node.left
  pub right : Fits32 node.right
  pub start : node.start / lanes < 2 ^ 31
  pub len : node.len < 2 ^ 31
  pub mn : All Fits16 node.mn
  pub mx : All Fits16 node.mx
  pub mn_size : length node.mn ≡ 16
  pub mx_size : length node.mx ≡ 16

-- The record of node `idx` reads as the node.
pub record HoldsNode (nodes_base : List ℕ) (idx : ℕ) (node : NodeEntry) : Type 0 where
  pub left : Layout.node_left nodes_base idx ≡ node.left
  pub right : Layout.node_right nodes_base idx ≡ node.right
  pub start : Layout.node_start nodes_base idx ≡ node.start / lanes
  pub len : Layout.node_len nodes_base idx ≡ node.len
  pub mn : Layout.node_min nodes_base idx ≡ node.mn
  pub mx : Layout.node_max nodes_base idx ≡ node.mx

-- The record of node `idx` stands at its place.
nodes_bytes-Left :
    (base : List ℕ) (cursor : ℕ) (nodes : List NodeEntry) (rest : List ℕ) (idx : ℕ)
    (node : NodeEntry)
    → Left base cursor (nodes_bytes nodes ++ rest)
    → All FitsRecord nodes
    → get_elem? nodes idx ≡ some node
    → (rest' : List ℕ) × Left base (cursor + idx * 80) (node_bytes node ++ rest') × FitsRecord node
unfolding nodes_bytes le_bytes
nodes_bytes-Left base cursor [] rest idx node h fits e = absurd (cc)
nodes_bytes-Left base cursor (n ∷ nodes) rest zero node h fits e =
    let same : n ≡ node = cc in
    let at : cursor + 0 * 80 ≡ cursor = omega arith in
    (
      nodes_bytes nodes ++ rest,
      rw (at, ← same) (h ∙ append_assoc (node_bytes n) (nodes_bytes nodes) rest),
      rw (← same) fits.0,
    )
nodes_bytes-Left base cursor (n ∷ nodes) rest (suc idx) node h fits e =
    let size =
      length-record_bytes (i32_bytes n.left) n.right (wrap32 (pos (n.start / lanes)))
        (wrap32 (pos n.len)) n.mn n.mx refl fits.0.mn_size fits.0.mx_size in
    let h' = h ∙ append_assoc (node_bytes n) (nodes_bytes nodes) rest in
    let next : Left base (cursor + 80) (nodes_bytes nodes ++ rest) =
      rw size at (Left-append base cursor (node_bytes n) (nodes_bytes nodes ++ rest) h') in
    let at : cursor + suc idx * 80 ≡ cursor + 80 + idx * 80 = omega arith in
    rw at (nodes_bytes-Left base (cursor + 80) nodes rest idx node next fits.1 e)

node_bytes-HoldsNode :
    (base : List ℕ) (idx : ℕ) (node : NodeEntry) (rest : List ℕ)
    → Left base (idx * 80) (node_bytes node ++ rest)
    → FitsRecord node
    → HoldsNode base idx node
unfolding Layout.node_left Layout.node_right Layout.node_start Layout.node_len Layout.node_min
    Layout.node_max le_bytes
node_bytes-HoldsNode base idx node rest h fits =
    let (start_kept, start_fits, start_back) = wrap32-bytes (node.start / lanes) fits.start in
    let (len_kept, len_fits, len_back) = wrap32-bytes node.len fits.len in
    let fields : FitsFields node.right (wrap32 (pos (node.start / lanes))) (wrap32 (pos node.len))
        node.mn node.mx =
      record {
        a_fits = fits.right;
        b_fits = rw start_kept start_fits;
        c_fits = rw len_kept len_fits;
        mn_fits = fits.mn;
        mx_fits = fits.mx;
        mn_size = fits.mn_size;
        mx_size = fits.mx_size;
      } in
    let reads =
      record_bytes-Reads base (idx * 80) (i32_bytes node.left) node.right
        (wrap32 (pos (node.start / lanes))) (wrap32 (pos node.len)) node.mn node.mx rest h refl
        fields in
    let at : idx * 80 + 0 ≡ idx * 80 = omega arith in
    record {
      left = rw at (i32_at_lem base (idx * 80) node.left reads.others reads.first_at fits.left);
      right = reads.a_at;
      start = ap as_usize (reads.b_at ∙ start_kept) ∙ start_back;
      len = ap as_usize (reads.c_at ∙ len_kept) ∙ len_back;
      mn = reads.mn_at;
      mx = reads.mx_at;
    }

-- Each node that `write_nodes` writes, in front of the rest of the file, is read back from its record
-- with its children, its box, its length and its first block, if these fit in their fields.
pub write_nodes-HoldsNode :
    (nodes : List NodeEntry) (rest : List ℕ) (idx : ℕ) (node : NodeEntry)
    → All FitsRecord nodes
    → get_elem? nodes idx ≡ some node
    → HoldsNode (write_nodes nodes [] ++ rest) idx node
write_nodes-HoldsNode nodes rest idx node fits e =
    let whole : Left (write_nodes nodes [] ++ rest) 0 (nodes_bytes nodes ++ rest) =
      ap (λ buf. buf ++ rest) (write_nodes-append nodes []) in
    let (rest', here, fits') =
      nodes_bytes-Left (write_nodes nodes [] ++ rest) 0 nodes rest idx node whole fits e in
    let place : 0 + idx * 80 ≡ idx * 80 = omega arith in
    node_bytes-HoldsNode (write_nodes nodes [] ++ rest) idx node rest' (rw place at here) fits'
