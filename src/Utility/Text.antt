-- ===== src/Utility/Text.antt =====
-- `fromText` and `toText` of path-oram/src/utility.cpp. A string is its bytes.
use path_oram.Prelude.{
  ℕ, zero, suc, ◌-◌, ◌<◌, ◌≡◌, ◌≢◌, refl, sym, ap, ◌∙◌, Bool, true, false, ◌&&◌, ◌||◌, [], ◌∷◌,
  ◌++◌, length, length-append, length-replicate, replicate, set as set_elem, All, ◌==◌, leb,
  if◌then◌else◌, ne→==_false, arith,
}
use mathlib.Core.List.{append_assoc}
use path_oram.Prelude.Words.{Bytes}
use path_oram.Utility.Files.{fill_buffer, fill_buffer_whole}

-- `setw(BLOCK_SIZE - 1) << left << text << endl`: spaces up to the width, and the end of the line.
unfoldable pub from_text : Bytes → ℕ → Bytes
from_text text block_size = (text ++ replicate (block_size - 1 - length text) 32) ++ 10 ∷ []

-- `string(buffer)` ends before the first zero.
unfoldable pub c_string : Bytes → Bytes
c_string [] = []
c_string (b ∷ buffer) = let rest = c_string buffer in if b == 0 then [] else b ∷ rest

-- `isspace`: the blank, and those from the tabulator to the carriage return.
unfoldable pub is_space : ℕ → Bool
is_space b = b == 32 || (leb 9 b && leb b 13)

abbrev is_nil : Bytes → Bool
is_nil [] = true
is_nil (b ∷ bs) = false

-- `boost::algorithm::trim_right`
unfoldable pub trim_right : Bytes → Bytes
unfolding is_space
trim_right [] = []
trim_right (b ∷ text) =
    let rest = trim_right text in if is_nil rest && is_space b then [] else b ∷ rest

unfoldable pub to_text : Bytes → ℕ → Bytes
unfolding c_string trim_right
to_text bytes block_size =
    trim_right (c_string (set_elem (fill_buffer bytes (replicate block_size 0)) (block_size - 1) 0))

set_last : (xs : Bytes) (b v : ℕ) → set_elem (xs ++ b ∷ []) (length xs) v ≡ xs ++ v ∷ []
set_last [] b v = refl
set_last (x ∷ xs) b v = ap (◌∷◌ x) (set_last xs b v)

c_string-append : (xs ys : Bytes) → All (λ b. b ≢ 0) xs → c_string (xs ++ ys) ≡ xs ++ c_string ys
unfolding c_string
c_string-append [] ys h = refl
c_string-append (x ∷ xs) ys h = rw (ne→==_false x 0 h.0) (ap (◌∷◌ x) (c_string-append xs ys h.1))

c_string-spaces : (n : ℕ) → c_string (replicate n 32 ++ 0 ∷ []) ≡ replicate n 32
unfolding c_string
c_string-spaces zero = refl
c_string-spaces (suc n) = ap (◌∷◌ 32) (c_string-spaces n)

trim_right-spaces : (n : ℕ) → trim_right (replicate n 32) ≡ []
unfolding trim_right is_space
trim_right-spaces zero = refl
trim_right-spaces (suc n) = rw (trim_right-spaces n) refl

trim_right-append : (xs : Bytes) (n : ℕ) → trim_right (xs ++ replicate n 32) ≡ trim_right xs
unfolding trim_right is_space
trim_right-append [] n = trim_right-spaces n
trim_right-append (x ∷ xs) n = rw (trim_right-append xs n) refl

-- A text that is shorter than the block, without zero bytes and without spaces at its end, comes
-- back from `toText` after `fromText`.
pub to_text-from_text :
    (text : Bytes) (block_size : ℕ)
    → length text < block_size
    → All (λ b. b ≢ 0) text
    → trim_right text ≡ text
    → to_text (from_text text block_size) block_size ≡ text
unfolding to_text from_text
to_text-from_text text block_size short no_zero trimmed =
    let gap = block_size - 1 - length text in
    let spaces = replicate gap 32 in
    let body = text ++ spaces in
    let width : length body ≡ block_size - 1 =
      omega (arith, length-append text spaces, length-replicate {A = ℕ} gap 32) in
    let longer = length-append body (10 ∷ []) in
    let filled =
      fill_buffer_whole (body ++ 10 ∷ []) (replicate block_size 0)
        (omega (arith, width, longer, length-replicate {A = ℕ} block_size 0)) in
    let ended : set_elem (body ++ 10 ∷ []) (block_size - 1) 0 ≡ body ++ 0 ∷ [] =
      ap (λ (n : ℕ). set_elem (body ++ 10 ∷ []) n 0) (sym width) ∙ set_last body 10 0 in
    let read : c_string (body ++ 0 ∷ []) ≡ body =
      ap c_string (append_assoc text spaces (0 ∷ []))
      ∙ c_string-append text (spaces ++ 0 ∷ []) no_zero
      ∙ ap (λ (t : Bytes). text ++ t) (c_string-spaces gap) in
    ap (λ (b : Bytes). trim_right (c_string (set_elem b (block_size - 1) 0))) filled
    ∙ ap (λ (b : Bytes). trim_right (c_string b)) ended
    ∙ ap trim_right read
    ∙ trim_right-append text gap
    ∙ trimmed
