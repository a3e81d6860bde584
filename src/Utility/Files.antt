-- ===== src/Utility/Files.antt =====
-- Files and buffers as their bytes: what is at a position, and what a read sees after a write.
use mathlib.Core.List.{append-nil}
use path_oram.Prelude.{
  ℕ, zero, suc, ◌+◌, ◌≤◌, ◌≡◌, refl, ap, ◌∙◌, [], ◌∷◌, ◌++◌, length, take, drop, length-append,
  length-drop, drop_all, take_left, arith,
}
use path_oram.Prelude.Words.{Bytes}

-- `seekg` and `read`: what there is of so many bytes from a position on.
unfoldable pub read_at : (size position : ℕ) → Bytes → Bytes
read_at size position file = take size (drop position file)

-- `seekp` and `write`. Behind the end of the file, the gap is filled with zeroes.
unfoldable pub write_at : (position : ℕ) → Bytes → Bytes → Bytes
write_at zero material file = material ++ drop (length material) file
write_at (suc position) material [] = 0 ∷ write_at position material []
write_at (suc position) material (b ∷ file) = b ∷ write_at position material file

-- A buffer after the first bytes are copied into it.
unfoldable pub fill_buffer : Bytes → Bytes → Bytes
fill_buffer material stale = material ++ drop (length material) stale

-- A buffer that is overwritten as a whole.
pub fill_buffer_whole :
    (material stale : Bytes)
    → length stale ≤ length material
    → fill_buffer material stale ≡ material
unfolding fill_buffer
fill_buffer_whole material stale h =
    ap (λ (t : Bytes). material ++ t) (drop_all (length material) stale h) ∙ append-nil material

pub length-write_at :
    (position : ℕ) (material file : Bytes)
    → position + length material ≤ length file
    → length (write_at position material file) ≡ length file
unfolding write_at
length-write_at zero material file h = omega (
  arith,
  length-append material (drop (length material) file),
  length-drop (length material) file,
)
length-write_at (suc position) material [] h = absurd (omega arith)
length-write_at (suc position) material (b ∷ file) h =
    ap suc (length-write_at position material file (omega arith))

pub read_at-write_at :
    (position : ℕ) (material file : Bytes)
    → read_at (length material) position (write_at position material file) ≡ material
unfolding read_at write_at
read_at-write_at zero material file =
    take_left (length material) material (drop (length material) file) refl
read_at-write_at (suc position) material [] = read_at-write_at position material []
read_at-write_at (suc position) material (b ∷ file) = read_at-write_at position material file

-- Before the bytes that are written.
pub read_before :
    (size at position : ℕ) (material file : Bytes)
    → at + size ≤ position
    → position ≤ length file
    → read_at size at (write_at position material file) ≡ read_at size at file
unfolding read_at write_at
read_before zero zero position material file h l = refl
read_before (suc size) zero zero material file h l = absurd (omega arith)
read_before (suc size) zero (suc position) material [] h l = elim l [ ]
read_before (suc size) zero (suc position) material (b ∷ file) h l =
    ap (◌∷◌ b) (read_before size zero position material file (omega arith) (omega arith))
read_before size (suc at) zero material file h l = absurd (omega arith)
read_before size (suc at) (suc position) material [] h l = elim l [ ]
read_before size (suc at) (suc position) material (b ∷ file) h l =
    read_before size at position material file (omega arith) (omega arith)

drop_past :
    (at : ℕ) (material file : Bytes)
    → length material ≤ at
    → drop at (material ++ drop (length material) file) ≡ drop at file
drop_past at [] file h = refl
drop_past (suc at) (m ∷ material) [] h =
    ap (drop at) (append-nil material) ∙ drop_all at material (omega arith)
drop_past (suc at) (m ∷ material) (b ∷ file) h = drop_past at material file (omega arith)
drop_past zero (m ∷ material) file h = absurd (omega arith)

-- Behind them.
pub read_behind :
    (size at position : ℕ) (material file : Bytes)
    → position + length material ≤ at
    → position ≤ length file
    → read_at size at (write_at position material file) ≡ read_at size at file
unfolding read_at write_at
read_behind size at zero material file h l =
    ap (take size) (drop_past at material file (omega arith))
read_behind size (suc at) (suc position) material (b ∷ file) h l =
    read_behind size at position material file (omega arith) (omega arith)
read_behind size (suc at) (suc position) material [] h l = absurd (omega arith)
read_behind size zero (suc position) material file h l = absurd (omega arith)

-- To write behind the first part of a buffer.
pub write_at-append :
    (before material after : Bytes)
    → write_at (length before) material (before ++ after)
      ≡ before ++ material ++ drop (length material) after
unfolding write_at
write_at-append [] material after = refl
write_at-append (b ∷ before) material after = ap (◌∷◌ b) (write_at-append before material after)
