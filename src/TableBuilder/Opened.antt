-- ===== src/TableBuilder/Opened.antt =====
-- How a file that Finish of table/table_builder.cpp has ended is read.
use yangkv_v.Base.{
  ℕ, ◌+◌, ◌%◌, ◌^◌, ◌<◌, ◌≡◌, sym, ap, ◌∙◌, refl, List, [], ◌∷◌, ◌++◌, length, length-append,
  append_assoc, arith,
}
use yangkv_v.Base.Outcome.{done}
use yangkv_v.BlockBuilder.{BlockBuilder, new_builder}
use yangkv_v.Coding.{encode_fixed32}
use yangkv_v.Coding.RoundTrip.{shows}
use yangkv_v.Env.Buffer.{contents}
use yangkv_v.Format.{BlockHandle, Footer, decode_footer}
use yangkv_v.Format.Read.{read_block}
use yangkv_v.Format.RoundTrip.{IsAssigned, decode_footer-encode_footer}
use yangkv_v.Log.{Pread, ReadsAll}
use yangkv_v.TableBuilder.{TableBuilder, trailer}
use yangkv_v.TableBuilder.Held.{Holds}
use yangkv_v.TableBuilder.Blocks.{stored, laid, placed_at, entries, length-stored}
use yangkv_v.TableBuilder.Stored.{done_same, read_block-stored}
use yangkv_v.TableBuilder.Ended.{Laid}
use mathlib.Core.Path.{subst}
use yangkv_v.BlockBuilder

-- ReadBlock gets every block by its handle, where the first stands at `o`.
unfoldable pub AllRead : Pread → List ℕ → ℕ → List (List ℕ × List ℕ) → Type 0
AllRead pread content o [] = Unit {0}
AllRead pread content o ((key, bytes) ∷ blocks) =
    (read_block pread content (placed_at o bytes) ≡ done bytes)
    × AllRead pread content (o + (length bytes + 5)) blocks

-- The bytes are data blocks, which hold the pairs, the metaindex block without entries, an index
-- block and a footer. The
-- index block is made by adding, for each data block, an entry with its handle; the footer leads to
-- the metaindex block and to the index block, and these handles lead to the data blocks.
abbrev pub Opens : Pread → List (List ℕ × List ℕ) → List ℕ → Type 0
Opens pread pairs content =
    (blocks : List (List ℕ × List ℕ)) × (index : BlockBuilder) × (code : List ℕ) × (footer : Footer)
    × Holds blocks pairs
    × (entries 0 blocks new_builder ≡ done index)
    × (content
        ≡ ((laid blocks ++ stored (BlockBuilder.finish new_builder).buffer)
            ++ stored (BlockBuilder.finish index).buffer)
          ++ code)
    × (length code ≡ 48)
    × (decode_footer (shows code [] 0) ≡ done (footer, record { ptr = []; size = 0 }))
    × (read_block pread content footer.metaindex_handle
        ≡ done (BlockBuilder.finish new_builder).buffer)
    × (read_block pread content footer.index_handle ≡ done (BlockBuilder.finish index).buffer)
    × AllRead pread content 0 blocks

blocks-AllRead :
    (pread : Pread) (blocks : List (List ℕ × List ℕ)) (content front back : List ℕ) (o : ℕ)
    → ReadsAll pread
    → length content < 2 ^ 63
    → o ≡ length front
    → content ≡ front ++ (laid blocks ++ back)
    → AllRead pread content o blocks
unfolding AllRead laid
blocks-AllRead pread [] content front back o reads small at whole = tt
blocks-AllRead pread ((key, bytes) ∷ blocks) content front back o reads small at whole =
    let whole' : content ≡ front ++ (stored bytes ++ (laid blocks ++ back)) =
      whole ∙ ap (λ (l : List ℕ). front ++ l) (append_assoc (stored bytes) (laid blocks) back) in
    let all : length content ≡ length front + (length bytes + 5 + length (laid blocks ++ back)) =
      omega (
        arith,
        ap (length {A = ℕ}) whole',
        length-append front (stored bytes ++ (laid blocks ++ back)),
        length-append (stored bytes) (laid blocks ++ back),
        length-stored bytes,
      ) in
    let here : o % 2 ^ 64 ≡ length front = omega (arith, at, all) in
    (
      rw (here, whole')
          (read_block-stored pread front bytes (laid blocks ++ back) reads (omega (arith, all))),
      blocks-AllRead pread blocks content (front ++ stored bytes) back (o + (length bytes + 5))
          reads small (omega (arith, at, length-append front (stored bytes), length-stored bytes))
          (whole' ∙ sym (append_assoc front (stored bytes) (laid blocks ++ back))),
    )

length-whole :
    (front bytes index code : List ℕ)
    → length (((front ++ stored bytes) ++ stored index) ++ code)
      ≡ length (front ++ stored bytes) + (length index + 5) + length code
unfolding encode_fixed32
length-whole front bytes index code = omega (
  arith,
  length-append ((front ++ stored bytes) ++ stored index) code,
  length-append (front ++ stored bytes) (stored index),
  length-append index (trailer 0),
)

length-before :
    (front bytes : List ℕ) → length (front ++ stored bytes) ≡ length front + (length bytes + 5)
unfolding encode_fixed32
length-before front bytes =
    omega (arith, length-append front (stored bytes), length-append bytes (trailer 0))

-- A handle that was set to where a block of a short file stands.
handle_there :
    (h : BlockHandle) (o n : ℕ)
    → o < 2 ^ 63
    → n < 2 ^ 63
    → h ≡ record { offset = o % 2 ^ 64; size = n }
    → (h ≡ record { offset = o; size = n }) × IsAssigned h
handle_there h o n small fits e =
    let there : h ≡ record { offset = o; size = n } =
      e ∙ ap (λ (x : ℕ). record { offset = x; size = n }) (omega arith) in
    (
      there,
      subst IsAssigned (sym there) (record { offset_set = omega arith; size_set = omega arith }),
    )

pub Laid-Opens :
    (pread : Pread) (pairs : List (List ℕ × List ℕ)) (r : TableBuilder)
    → ReadsAll pread
    → length (contents r.file) < 2 ^ 63
    → Laid pairs r
    → Opens pread pairs (contents r.file)
Laid-Opens pread pairs r reads small l =
    let none_there = (BlockBuilder.finish new_builder).buffer in
    let last = (BlockBuilder.finish l.index).buffer in
    let front = laid l.blocks in
    let before = front ++ stored none_there in
    let all = ap (length {A = ℕ}) l.whole ∙ length-whole front none_there last l.code in
    let first = length-before front none_there in
    let (metaindex, assigned) =
      handle_there l.footer.metaindex_handle (length front) (length none_there)
        (omega (arith, all, first)) (omega (arith, all, first)) l.metaindex_at in
    let (index, assigned') =
      handle_there l.footer.index_handle (length before) (length last) (omega (arith, all))
        (omega (arith, all)) l.index_at in
    let (code, encoded, size, decoded) =
      decode_footer-encode_footer l.footer [] 0 assigned assigned' (omega arith) in
    let same : code ≡ l.code = done_same (sym encoded ∙ l.encoded) in
    let behind : contents r.file ≡ front ++ (stored none_there ++ (stored last ++ l.code)) =
      l.whole
      ∙ append_assoc before (stored last) l.code
      ∙ append_assoc front (stored none_there) (stored last ++ l.code) in
    (
      l.blocks,
      l.index,
      code,
      l.footer,
      l.held,
      l.listed,
      l.whole ∙ ap (λ (x : List ℕ). (before ++ stored last) ++ x) (sym same),
      size,
      decoded,
      rw (metaindex, behind)
          (read_block-stored pread front none_there (stored last ++ l.code) reads
            (omega (arith, all, first))),
      rw (index, l.whole, append_assoc before (stored last) l.code)
          (read_block-stored pread before last l.code reads (omega (arith, all))),
      blocks-AllRead pread l.blocks (contents r.file) [] _ 0 reads small refl behind,
    )
