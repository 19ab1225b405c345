-- ===== src/Raft/Snapshot/Chunks/Prefix.antt =====
-- Whatever arrives of a snapshot, in whatever order, what is kept is a prefix of it
-- (`appendChunk`, internal/raft/snapshot.go).
use kver.Prelude.{
  ℕ, zero, suc, ◌+◌, ◌≤◌, ◌<◌, ◌≡◌, refl, sym, ap, ◌∙◌, arith, Bytes, Bool, List, [], ◌∷◌, ◌++◌,
  add64, u64_mod, length, take, drop, length-take, length-drop, take-nil, take_of_length-le, ◌⊎◌,
  inl, inr, subst,
}
use native.Mathlib.Nat.{suc-add}
use kver.Raft.Types.{ok, InstallSnapshotRequest}
use kver.Raft.Node.{InstallState, Config}
use kver.Raft.Snapshot.Chunks.{append_chunk, new_install_state}

-- A chunk of the contents: its offset and how many bytes it has.
pub record Chunk : Type 0 where
  pub offset : ℕ
  pub size : ℕ
  pub stored : Bool  -- the file can be read and written

-- What the sender puts into the request.
abbrev pub chunk_of : Bytes → Chunk → Bytes
chunk_of contents c = take c.size (drop c.offset contents)

-- An installation starts with nothing.
new_install_state-ok :
    (opened : Bool) (config : Config) (req : InstallSnapshotRequest) (s : InstallState)
    → new_install_state opened config req ≡ ok s
    → (s.next_offset ≡ 0) × (s.contents ≡ []) × (s.total_size ≡ req.total_size)
unfolding new_install_state
new_install_state-ok opened config req s h = (ground arith, ground arith, ground arith)

-- The state that a sequence of chunks leaves, and the errors are answers only.
unfoldable pub hear_chunks : Bytes → List Chunk → InstallState → InstallState
unfolding append_chunk
hear_chunks contents [] s = s
hear_chunks contents (c ∷ cs) s =
    hear_chunks contents cs (append_chunk c.stored c.offset (chunk_of contents c) s).0

-- What is kept is the contents up to the next offset.
pub record IsPrefix (contents : Bytes) (s : InstallState) : Type 0 where
  pub within : s.next_offset ≤ length contents
  pub kept : s.contents ≡ take s.next_offset contents

take-add : (n k : ℕ) (xs : Bytes) → take n xs ++ take k (drop n xs) ≡ take (n + k) xs
take-add zero k xs = ap (λ j. take j xs) (omega arith)
take-add (suc n) k [] = take-nil k ∙ sym (take-nil (suc n + k))
take-add (suc n) k (x ∷ xs) =
    ap (◌∷◌ x) (take-add n k xs) ∙ ap (λ j. take j (x ∷ xs)) (sym (suc-add n k))

take-length-take : (k : ℕ) (xs : Bytes) → take (length (take k xs)) xs ≡ take k xs
take-length-take zero xs = refl
take-length-take (suc k) [] = refl
take-length-take (suc k) (x ∷ xs) = ap (◌∷◌ x) (take-length-take k xs)

append_chunk-cases :
    (stored : Bool) (offset : ℕ) (chunk : Bytes) (s : InstallState)
    → ((append_chunk stored offset chunk s).0 ≡ s)
      ⊎ ((offset ≡ s.next_offset)
          × ((append_chunk stored offset chunk s).0 ≡ record s {
            contents = s.contents ++ chunk;
            next_offset = add64 offset (length chunk);
          }))
unfolding append_chunk
append_chunk-cases stored offset chunk s = ground arith

pub grown :
    (contents : Bytes) (n k : ℕ)
    → n ≤ length contents
    → length contents < u64_mod
    → (add64 n (length (take k (drop n contents))) ≤ length contents)
      × (take n contents ++ take k (drop n contents)
          ≡ take (add64 n (length (take k (drop n contents)))) contents)
grown contents n k within fits =
    let chunk = take k (drop n contents) in
    let count = length-take k (drop n contents) in
    let left = length-drop n contents in
    let exact : add64 n (length chunk) ≡ n + length chunk = omega arith in
    (
      omega arith,
      ap (λ xs. take n contents ++ xs) (sym (take-length-take k (drop n contents)))
          ∙ take-add n (length chunk) contents
          ∙ ap (λ j. take j contents) (sym exact),
    )

append_chunk-IsPrefix :
    (contents : Bytes) (c : Chunk) (s : InstallState)
    → length contents < u64_mod
    → IsPrefix contents s
    → IsPrefix contents (append_chunk c.stored c.offset (chunk_of contents c) s).0
append_chunk-IsPrefix contents c s fits p =
    elim (append_chunk-cases c.stored c.offset (chunk_of contents c) s) [
      | inl same ↦ subst (IsPrefix contents) (sym same) p
      | inr (at, eq) ↦ subst (IsPrefix contents) (sym eq) (
          let (within, kept) = grown contents s.next_offset c.size p.within fits in
          let start = p.kept in record { within = rw at within; kept = rw (at, start) kept })
    ]

append_chunk-total_size :
    (stored : Bool) (offset : ℕ) (chunk : Bytes) (s : InstallState)
    → (append_chunk stored offset chunk s).0.total_size ≡ s.total_size
append_chunk-total_size stored offset chunk s = elim (append_chunk-cases stored offset chunk s) [
  | inl same ↦ ap (λ t. t.total_size) same
  | inr (at, eq) ↦ ap (λ t. t.total_size) eq
]

hear_chunks-IsPrefix :
    (contents : Bytes) (cs : List Chunk) (s : InstallState)
    → length contents < u64_mod
    → IsPrefix contents s
    → IsPrefix contents (hear_chunks contents cs s)
      × ((hear_chunks contents cs s).total_size ≡ s.total_size)
unfolding hear_chunks
hear_chunks-IsPrefix contents [] s fits p = (p, refl)
hear_chunks-IsPrefix contents (c ∷ cs) s fits p =
    let next = (append_chunk c.stored c.offset (chunk_of contents c) s).0 in
    let (kept, total) =
      hear_chunks-IsPrefix contents cs next fits (append_chunk-IsPrefix contents c s fits p) in
    (kept, total ∙ append_chunk-total_size c.stored c.offset (chunk_of contents c) s)

-- Of a snapshot whose size fits a word, whose chunks arrive in any order, twice or not at all, and
-- of which some cannot be stored, the contents are complete when the next offset reaches the
-- announced size.
pub hear_chunks-contents :
    (opened : Bool) (config : Config) (req : InstallSnapshotRequest) (contents : Bytes)
    (cs : List Chunk) (s : InstallState)
    → new_install_state opened config req ≡ ok s
    → req.total_size ≡ length contents
    → length contents < u64_mod
    → (hear_chunks contents cs s).next_offset ≡ (hear_chunks contents cs s).total_size
    → (hear_chunks contents cs s).contents ≡ contents
hear_chunks-contents opened config req contents cs s made size fits done =
    let (start, begins, total) = new_install_state-ok opened config req s made in
    let first : IsPrefix contents s = record {
      within = omega arith;
      kept = rw (start, begins) refl;
    } in
    let (p, kept) = hear_chunks-IsPrefix contents cs s fits first in
    p.kept ∙ take_of_length-le (hear_chunks contents cs s).next_offset contents (omega arith)
