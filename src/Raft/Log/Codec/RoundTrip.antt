-- ===== src/Raft/Log/Codec/RoundTrip.antt =====
-- The records that are written are read back, and a record that was cut short is dropped
-- (internal/raft/log.go).
use mathlib.Core.List.{append_assoc, append-nil}
use kver.Prelude.{
  ℕ, zero, suc, ◌+◌, ◌^◌, ◌≤◌, ◌<◌, ◌≡◌, refl, sym, ap, ◌∙◌, arith, Bytes, true, Option, none, some,
  List, [], ◌∷◌, ◌++◌, ltb, length, length-append, take, drop, Bool-cases, inl, inr, ◌⊎◌, All,
  length-drop,
}
use kver.Prelude.Words.{
  le_bytes, read_le, length-le_bytes, read_le-le_bytes, take-append_eq, drop-append_eq,
  drop-append_skip, take-append_left,
}
use kver.Raft.Types.{LogEntry, corrupt_log}
use kver.Raft.Log.Codec.{
  WalCodec, torn_tail, corrupt, found, loaded, failed, max_record_size, frame, framed,
  write_wal_record, write_behind, write_wal_records, read_entry, read_body, read_wal_record,
  prepend, read_wal_records,
}

module _ (codec : WalCodec) (crc_fits : (text : Bytes) → codec.crc32 text < 2 ^ 32) where
  open codec use {marshal, unmarshal, crc32}

  length-frame : (text : Bytes) → length (frame codec text) ≡ 8 + length text
  unfolding frame
  length-frame text = omega (
    arith,
    length-append (le_bytes 4 (length text)) (le_bytes 4 (crc32 text) ++ text),
    length-append (le_bytes 4 (crc32 text)) text,
    length-le_bytes 4 (length text),
    length-le_bytes 4 (crc32 text),
  )

  -- The parts of a file that starts with a frame.
  record Framed (text rest file : Bytes) : Type 0 where
    size_part : read_le (take 4 file) ≡ length text
    crc_part : read_le (take 4 (drop 4 file)) ≡ crc32 text
    body_part : drop 8 file ≡ text ++ rest
    whole : length file ≡ 8 + length text + length rest

  frame-Framed :
      (text rest : Bytes) → length text < 2 ^ 32 → Framed text rest (frame codec text ++ rest)
  unfolding frame
  frame-Framed text rest small =
      let size = le_bytes 4 (length text) in
      let crc = le_bytes 4 (crc32 text) in
      let four = length-le_bytes 4 (length text) in
      let four' = length-le_bytes 4 (crc32 text) in
      let flat : frame codec text ++ rest ≡ size ++ (crc ++ (text ++ rest)) =
        append_assoc size (crc ++ text) rest ∙ ap (λ xs. size ++ xs) (append_assoc crc text rest) in
      let count = length-append (frame codec text) rest in
      let count' = length-frame text in
      record {
        size_part =
            ap (λ xs. read_le (take 4 xs)) flat
            ∙ ap read_le (take-append_eq 4 size (crc ++ (text ++ rest)) four)
            ∙ read_le-le_bytes 4 (length text) (omega arith);
        crc_part =
            ap (λ xs. read_le (take 4 (drop 4 xs))) flat
            ∙ ap (λ xs. read_le (take 4 xs)) (drop-append_eq 4 size (crc ++ (text ++ rest)) four)
            ∙ ap read_le (take-append_eq 4 crc (text ++ rest) four')
            ∙ read_le-le_bytes 4 (crc32 text) (let c = crc_fits text in omega arith);
        body_part =
            ap (drop 8) flat
            ∙ drop-append_skip 8 4 4 size (crc ++ (text ++ rest)) four refl
            ∙ drop-append_eq 4 crc (text ++ rest) four';
        whole = omega arith;
      }

  read_body-found :
      (entry : LogEntry) (text rest file : Bytes)
      → Framed text rest file
      → unmarshal text ≡ some entry
      → read_body codec (length text) file ≡ found entry rest
  unfolding read_body
  read_body-found entry text rest file f u =
      let t = ap (take (length text)) f.body_part ∙ take-append_eq (length text) text rest refl in
      let d = ap (drop (length text)) f.body_part ∙ drop-append_eq (length text) text rest refl in
      let room = ap (length {0}) f.body_part ∙ length-append text rest in
      let size = f.whole in rw (t, d, f.crc_part, u, room) (unfold read_entry in ground arith)

  read_wal_record-found :
      (entry : LogEntry) (text rest file : Bytes)
      → Framed text rest file
      → length text ≤ max_record_size
      → unmarshal text ≡ some entry
      → read_wal_record codec file ≡ found entry rest
  unfolding read_wal_record
  read_wal_record-found entry text rest [] f small u = absurd (let size = f.whole in omega arith)
  read_wal_record-found entry text rest (b ∷ bs) f small u =
      let size = f.whole in
      rw f.size_part (ground (arith, read_body-found entry text rest (b ∷ bs) f u))

  -- A record that is written with more than the limit cannot be read.
  read_wal_record-corrupt :
      (text rest file : Bytes)
      → Framed text rest file
      → max_record_size < length text
      → read_wal_record codec file ≡ corrupt
  unfolding read_wal_record
  read_wal_record-corrupt text rest [] f large = absurd (let size = f.whole in omega arith)
  read_wal_record-corrupt text rest (b ∷ bs) f large =
      let size = f.whole in rw f.size_part (ground arith)

  read_body-torn :
      (text front : Bytes)
      → length front < 8 + length text
      → read_body codec (length text) front ≡ torn_tail
  unfolding read_body
  read_body-torn text front h = let left = length-drop 8 front in ground arith

  -- A proper prefix of a record is a torn tail, or the end of the file where nothing is left of it.
  read_wal_record-torn :
      (text front back : Bytes) (x : ℕ)
      → length text ≤ max_record_size
      → frame codec text ≡ front ++ (x ∷ back)
      → (front ≡ []) ⊎ (read_wal_record codec front ≡ torn_tail)
  unfolding read_wal_record
  read_wal_record-torn text [] back x small e = inl refl
  read_wal_record-torn text (b ∷ bs) back x small e =
      let file = b ∷ bs in
      let whole = length-frame text in
      let parts = ap (length {0}) e ∙ length-append file (x ∷ back) in
      let full = frame-Framed text [] (omega arith) in
      let size : 4 ≤ length file → read_le (take 4 file) ≡ length text = λ four.
        ap read_le (
          sym (take-append_left 4 file (x ∷ back) four)
          ∙ ap (take 4) (sym e ∙ sym (append-nil (frame codec text))))
        ∙ full.size_part in
      inr (elim (Bool-cases (ltb (length file) 4)) [
        | inl few ↦ rw few refl
        | inr many ↦ rw (size (ground arith)) (ground (arith, read_body-torn text file))
      ])

  -- What a write that was cut short leaves behind the whole records.
  pub data IsTorn : Bytes → Type 0 where
    clean : {front : Bytes} → front ≡ [] → IsTorn front
    cut :
        {front : Bytes} (text back : Bytes) (x : ℕ)
        → length text ≤ max_record_size
        → frame codec text ≡ front ++ (x ∷ back)
        → IsTorn front

  -- The protobuf library reads back what it writes of an entry, in a record within the limit.
  pub record IsStorable (entry : LogEntry) : Type 0 where
    pub text : Bytes
    pub marshalled : marshal entry ≡ some text
    pub unmarshalled : unmarshal text ≡ some entry
    pub small : length text ≤ max_record_size

  read_wal_records-torn :
      (fuel : ℕ) (front : Bytes)
      → (front ≡ []) ⊎ (read_wal_record codec front ≡ torn_tail)
      → read_wal_records codec true (suc fuel) front ≡ loaded [] front
  unfolding read_wal_records
  read_wal_records-torn fuel front (inl empty) = rw empty (unfold read_wal_record in refl)
  read_wal_records-torn fuel front (inr torn) = rw torn refl

  read_wal_records-found :
      (fuel : ℕ) (e : LogEntry) (es : List LogEntry) (left tail file : Bytes)
      → read_wal_record codec file ≡ found e left
      → read_wal_records codec true fuel left ≡ loaded es tail
      → read_wal_records codec true (suc fuel) file ≡ loaded (e ∷ es) tail
  unfolding read_wal_records prepend
  read_wal_records-found fuel e es left tail file first more = rw (first, more) refl

  IsTorn-cases :
      (front : Bytes) → IsTorn front → (front ≡ []) ⊎ (read_wal_record codec front ≡ torn_tail)
  IsTorn-cases front (clean e) = inl e
  IsTorn-cases front (cut text back x small e) = read_wal_record-torn text front back x small e

  write_behind-some :
      (record_bytes written : Bytes) (rest : Option Bytes)
      → write_behind codec (some record_bytes) rest ≡ some written
      → (tail : Bytes) × (rest ≡ some tail) × (written ≡ record_bytes ++ tail)
  unfolding write_behind
  write_behind-some record_bytes written none h = cc
  write_behind-some record_bytes written (some tail) h = (tail, refl, ground arith)

  write_wal_records-some :
      (e : LogEntry) (es : List LogEntry) (text written : Bytes)
      → marshal e ≡ some text
      → write_wal_records codec (e ∷ es) ≡ some written
      → (tail : Bytes) × (write_wal_records codec es ≡ some tail)
        × (written ≡ frame codec text ++ tail)
  unfolding write_wal_records write_wal_record framed
  write_wal_records-some e es text written m h =
      write_behind-some (frame codec text) written (write_wal_records codec es)
        (ap (λ o. write_behind codec (framed codec o) (write_wal_records codec es)) (sym m) ∙ h)

  -- What whole records are written as, followed by a record of which not all was written, is read
  -- as the entries of the whole records, and the rest is what is cut off, if the protobuf library
  -- reads the entries back and the records are within the limit.
  pub read_wal_records-write :
      (es : List LogEntry) (written front : Bytes) (fuel : ℕ)
      → write_wal_records codec es ≡ some written
      → All IsStorable es
      → IsTorn front
      → length es < fuel
      → read_wal_records codec true fuel (written ++ front) ≡ loaded es front
  read_wal_records-write es written front zero w s t h = absurd (omega arith)
  read_wal_records-write [] written front (suc fuel) w s t h =
      let empty : written ≡ [] = unfold write_wal_records in ground arith in
      rw empty (read_wal_records-torn fuel front (IsTorn-cases front t))
  read_wal_records-write (e ∷ es) written front (suc fuel) w (s, ss) t h =
      let (tail, rest, eq) = write_wal_records-some e es s.text written s.marshalled w in
      let small = s.small in
      let flat : written ++ front ≡ frame codec s.text ++ (tail ++ front) =
        ap (λ xs. xs ++ front) eq ∙ append_assoc (frame codec s.text) tail front in
      let first =
        read_wal_record-found e s.text (tail ++ front) (frame codec s.text ++ (tail ++ front))
          (frame-Framed s.text (tail ++ front) (omega arith)) small s.unmarshalled in
      let more = read_wal_records-write es tail front fuel rest ss t (omega arith) in
      rw flat (read_wal_records-found fuel e es (tail ++ front) front _ first more)

  -- A record that is longer than the limit, and shorter than 2 ^ 32 bytes, is written without an
  -- error, and a file that goes on with it cannot be read: the limit is checked by the reader
  -- alone.
  pub read_wal_records-oversized :
      (e : LogEntry) (text behind : Bytes) (fuel : ℕ)
      → marshal e ≡ some text
      → max_record_size < length text
      → length text < 2 ^ 32
      → (written : Bytes) × (write_wal_record codec e ≡ some written)
        × (read_wal_records codec true (suc fuel) (written ++ behind) ≡ failed corrupt_log)
  unfolding write_wal_record framed
  read_wal_records-oversized e text behind fuel m large word =
      let first =
        read_wal_record-corrupt text behind (frame codec text ++ behind)
          (frame-Framed text behind word) large in
      (frame codec text, rw m refl, unfold read_wal_records in rw first refl)
