-- ===== src/Stash/Files/RoundTrip.antt =====
-- A stash that is stored and loaded.
use mathlib.Core.List.{append_assoc, append-nil}
use path_oram.Prelude.{
  ℕ, zero, suc, ◌+◌, ◌*◌, ◌≤◌, ◌<◌, ◌≡◌, refl, sym, ap, ◌∙◌, true, List, [], ◌∷◌, ◌++◌, Option,
  none, some, length, length-append, take, drop, take_left, take_all, ltb, ◌%◌, ◌^◌, drop_left, All,
  ok, Option-cases, inl, inr, arith,
}
use path_oram.Prelude.Words.{
  Bytes, u32_mod, u64_mod, to_bytes, from_bytes, length-to_bytes, from_bytes-to_bytes_64,
}
use path_oram.Prelude.Assoc.{lookup, insert, lookup-insert}
use path_oram.Definitions.{Block}
use path_oram.Utility.Files.{write_at, write_at-append}
use path_oram.Stash.{Stash}
use path_oram.Stash.Laws.{find}
use path_oram.Stash.Files.{
  copy_records, stored_records, store_to_file, insert_records, load_from_file,
}

-- The records one behind the other.
flat : List Block → Bytes
flat [] = []
flat ((id, payload) ∷ records) = (to_bytes 8 id ++ payload) ++ flat records

-- IDs are `number`s, and the payloads have one size.
abbrev pub AreRecords : ℕ → List Block → Type 0
AreRecords size records = All (λ x. (x.0 < u64_mod) × (length x.1 ≡ size)) records

length-flat :
    (size : ℕ) (records : List Block)
    → AreRecords size records
    → length (flat records) ≡ length records * (8 + size)
unfolding flat
length-flat size [] h = omega arith
length-flat size ((id, payload) ∷ records) h = omega (
  arith,
  h.0.1,
  length-append (to_bytes 8 id ++ payload) (flat records),
  length-append (to_bytes 8 id) payload,
  length-to_bytes 8 id,
  length-flat size records h.1,
)

-- One record is copied behind those before it.
copy_one :
    (before rest payload : Bytes) (id position : ℕ)
    → length before ≡ position
    → (rest' : Bytes) × (write_at
          (position + 8)
          payload
          (write_at position (to_bytes 8 id) (before ++ rest))
        ≡ ((before ++ to_bytes 8 id) ++ payload) ++ rest')
copy_one before rest payload id position at =
    let number = to_bytes 8 id in
    let rest1 = drop (length number) rest in
    let rest2 = drop (length payload) rest1 in
    let first : write_at position number (before ++ rest) ≡ (before ++ number) ++ rest1 =
      ap (λ (p : ℕ). write_at p number (before ++ rest)) (sym at)
      ∙ write_at-append before number rest in
    let further : position + 8 ≡ length (before ++ number) =
      omega (arith, at, length-append before number, length-to_bytes 8 id) in
    (
      rest2,
      ap (write_at (position + 8) payload) first
          ∙ ap (λ (p : ℕ). write_at p payload ((before ++ number) ++ rest1)) further
          ∙ write_at-append (before ++ number) payload rest1,
    )

flat_assoc : (a b c d : Bytes) → ((a ++ b) ++ c) ++ d ≡ a ++ ((b ++ c) ++ d)
flat_assoc a b c d =
    append_assoc (a ++ b) c d
    ∙ append_assoc a b (c ++ d)
    ∙ ap (λ (t : Bytes). a ++ t) (sym (append_assoc b c d))

copy_records-flat :
    (size i : ℕ) (records : List Block) (before rest : Bytes)
    → length before ≡ (8 + size) * i
    → AreRecords size records
    → (rest' : Bytes) × (copy_records (8 + size) i records (before ++ rest)
        ≡ (before ++ flat records) ++ rest')
unfolding copy_records flat
copy_records-flat size i [] before rest at h =
    (rest, ap (λ (t : Bytes). t ++ rest) (sym (append-nil before)))
copy_records-flat size i ((id, payload) ∷ records) before rest at h =
    let (rest1, copied) = copy_one before rest payload id ((8 + size) * i) at in
    let longer = (before ++ to_bytes 8 id) ++ payload in
    let (rest2, all) =
      copy_records-flat size (i + 1) records longer rest1
        (omega (
          arith,
          at,
          h.0.1,
          length-append (before ++ to_bytes 8 id) payload,
          length-append before (to_bytes 8 id),
          length-to_bytes 8 id,
        ))
        h.1 in
    (
      rest2,
      ap (copy_records (8 + size) (i + 1) records) copied
          ∙ all
          ∙ ap (λ (t : Bytes). t ++ rest2)
              (flat_assoc before (to_bytes 8 id) payload (flat records)),
    )

stored_records-flat :
    (size : ℕ) (records : List Block) (stale : Bytes)
    → AreRecords size records
    → stored_records records stale ≡ flat records
unfolding stored_records flat
stored_records-flat size [] stale h = refl
stored_records-flat size ((id, payload) ∷ records) stale h =
    let all = (id, payload) ∷ records in
    let (rest, copied) = copy_records-flat size 0 all [] stale (omega arith) h in
    ap (λ (n : ℕ). take (length all * (8 + n)) (copy_records (8 + n) 0 all stale)) h.0.1
    ∙ ap (take (length all * (8 + size))) copied
    ∙ take_left (length all * (8 + size)) (flat all) rest (length-flat size all h)

-- What the loop over the file leaves: an entry that is there already is kept.
insert_all : List Block → List Block → List Block
insert_all [] stash = stash
insert_all ((id, payload) ∷ records) stash = insert_all records (insert id payload stash)

abbrev first_of : Option Bytes → Option Bytes → Option Bytes
first_of (some v) other = some v
first_of none other = other

lookup-insert_all :
    (records stash : List Block) (id : ℕ)
    → lookup id (insert_all records stash) ≡ first_of (lookup id stash) (lookup id records)
unfolding insert_all lookup
lookup-insert_all [] stash id = elim (Option-cases (lookup id stash)) [
  | inl absent ↦ rw absent refl
  | inr (v, found) ↦ rw found refl
]
lookup-insert_all ((k, payload) ∷ records) stash id =
    ground (
      arith,
      lookup-insert k id payload stash,
      lookup-insert_all records (insert k payload stash) id,
    )

insert_records_end :
    (rounds size : ℕ) (stash : List Block) → insert_records rounds size [] stash ≡ stash
unfolding insert_records
insert_records_end zero size stash = refl
insert_records_end (suc rounds) size stash = refl

insert_records_step :
    (rounds size : ℕ) (file : Bytes) (stash : List Block)
    → 0 < length file
    → insert_records (suc rounds) size file stash
      ≡ insert_records rounds size
          (drop (8 + size) file)
          (insert (from_bytes (take 8 file)) (take size (drop 8 file)) stash)
unfolding insert_records
insert_records_step rounds size [] stash h = absurd (omega arith)
insert_records_step rounds size (b ∷ file) stash h = refl

insert_records-flat :
    (rounds size : ℕ) (records stash : List Block)
    → length records ≤ rounds
    → AreRecords size records
    → insert_records rounds size (flat records) stash ≡ insert_all records stash
unfolding insert_records flat insert_all
insert_records-flat rounds size [] stash h proper = insert_records_end rounds size stash
insert_records-flat zero size (x ∷ records) stash h proper = absurd (omega arith)
insert_records-flat (suc rounds) size ((id, payload) ∷ records) stash h proper =
    let number = to_bytes 8 id in
    let later = flat records in
    let file = (number ++ payload) ++ later in
    let whole = length-append number payload in
    let key = length-to_bytes 8 id in
    let taken : take 8 file ≡ number =
      ap (take 8) (append_assoc number payload later) ∙ take_left 8 number (payload ++ later) key in
    let behind : drop 8 file ≡ payload ++ later =
      ap (drop 8) (append_assoc number payload later) ∙ drop_left 8 number (payload ++ later) key in
    let dropped : drop (8 + size) file ≡ later =
      drop_left (8 + size) (number ++ payload) later (omega (arith, whole, key, proper.0.1)) in
    insert_records_step rounds size file stash
      (omega (arith, length-append (number ++ payload) later, whole, key))
    ∙ rw
        (
          taken,
          behind,
          dropped,
          take_left size payload later proper.0.1,
          from_bytes-to_bytes_64 id proper.0.0,
        )
        (insert_records-flat rounds size records (insert id payload stash) (omega arith) proper.1)

-- A stash of blocks with one size of payload, whose records have fewer than 2 ^ 31 bytes together,
-- that is stored to a file that opens, and loaded with this size into an empty stash, comes back:
-- every block is found, or not, as before.
pub find-load_from_file :
    (t n : Stash) (stale : Bytes) (size : ℕ)
    → AreRecords size t.stash
    → length t.stash * (8 + size) < 2 ^ 31
    → n.stash ≡ []
    → (file : Bytes) × (m : Stash) × (store_to_file t true stale ≡ ok file)
      × (load_from_file n (some file) size ≡ ok m)
      × (m.capacity ≡ n.capacity)
      × ((id : ℕ) → find m id ≡ find t id)
unfolding store_to_file load_from_file lookup
find-load_from_file t n stale size h narrow empty =
    let records = t.stash in
    let written = stored_records-flat size records stale h in
    let many : length records ≤ length (flat records) = omega (arith, length-flat size records h) in
    let low : length (flat records) % u32_mod ≡ length (flat records) =
      omega (arith, length-flat size records h) in
    let small : ltb (length (flat records)) (2 ^ 31) ≡ true =
      ground (arith, length-flat size records h) in
    let result = insert_all records n.stash in
    (
      flat records,
      record n { stash = result },
      ap ok written,
      rw
          (
            low,
            small,
            take_all (length (flat records)) (flat records) (omega arith),
            insert_records-flat (length (flat records)) size records n.stash many h,
          )
          refl,
      refl,
      λ id.
          lookup-insert_all records n.stash id
          ∙ ap (λ (m : List Block). first_of (lookup id m) (lookup id records)) empty,
    )
