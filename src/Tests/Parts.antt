-- ===== src/Tests/Parts.antt =====
-- The theorems about the tree, the adapters and the utilities at concrete inputs.
use path_oram.Prelude.{
  ℕ, ◌^◌, ◌≤◌, ◌<◌, ◌≡◌, ◌↔◌, refl, true, List, [], ◌∷◌, none, some, ok, ◌>>=◌, ◌==◌, if◌then◌else◌,
  Permᴰ, replicate, arith,
}
use path_oram.Prelude.Words.{Bytes}
use path_oram.Prelude.Assoc.{lookup, contains, insert, assign}
use path_oram.Tree.{HasHeight, bucket_for_level_leaf, can_include, leaves_for_location}
use path_oram.Tree.Shifts.{floor_log2}
use path_oram.Tree.Path.{bucket_for_level_leaf_bounds, leaves_for_location_iff}
use path_oram.Utility.Cipher.{encrypting, decrypting, cbc, Aes, IsAes, encrypt, encrypt-encrypt}
use path_oram.PositionMap.{PositionMap, check_capacity, get, set}
use path_oram.PositionMap.Laws.{get-after_set}
use path_oram.PositionMap.Files.{store_to_file, load_from_file, load_from_file-store_to_file}
use path_oram.Stash.{Stash, check_overflow, add, update, get_all, exists, current_size}
use path_oram.Stash.Laws as StashLaws
use path_oram.Stash.Laws.{
  find, Overflows, overflow_throws, add_ok, update_ok, add-IsValid, update-IsValid, find-remove,
  get_all-perm,
}

tall : HasHeight 3
tall = record { lower = omega arith; upper = omega arith }

bucket_for_level_leaf_bounds_example :
    (2 ^ 1 ≤ bucket_for_level_leaf 3 1 2) × (bucket_for_level_leaf 3 1 2 < 2 ^ 2)
bucket_for_level_leaf_bounds_example =
    bucket_for_level_leaf_bounds 3 1 2 tall (omega arith) (omega arith)

same_bucket : bucket_for_level_leaf 3 1 0 ≡ bucket_for_level_leaf 3 1 1
unfolding bucket_for_level_leaf
same_bucket = refl

included : can_include 3 0 1 1 ≡ true
unfolding can_include bucket_for_level_leaf
included = refl

leaves_for_location_iff_example :
    (((leaves_for_location 3 3).0 ≤ 2) × (2 ≤ (leaves_for_location 3 3).1))
    ↔ (bucket_for_level_leaf 3 (floor_log2 3) 2 ≡ 3)
leaves_for_location_iff_example =
    leaves_for_location_iff 3 3 2 tall (omega arith) (omega arith) (omega arith)

abbrev three : List ℕ
three = 1 ∷ 2 ∷ 3 ∷ []

abbrev pub no_cipher : Aes
no_cipher = record {
  set_encrypt_key = λ key. key;
  set_decrypt_key = λ key. key;
  encrypt_block = λ schedule block. block;
  decrypt_block = λ schedule block. block;
  cbc128_encrypt = λ input schedule iv block. input;
  cbc128_decrypt = λ input schedule iv block. input;
  ctr128_encrypt = λ input schedule iv block. input;
}

pub no_cipher-IsAes : IsAes no_cipher
no_cipher-IsAes = record {
  length-cbc128_encrypt = λ input schedule iv block. refl;
  length-ctr128_encrypt = λ input schedule iv block. refl;
  decrypt_block-encrypt_block = λ key whole block aligned. refl;
  cbc128_decrypt-cbc128_encrypt =
      λ input schedule schedule' iv block undo inverse whole blocks. refl;
  ctr128_encrypt-ctr128_encrypt = λ input schedule iv block whole. refl;
}

encrypt-encrypt_example :
    (encrypt no_cipher cbc (replicate 32 7) (replicate 16 1) (replicate 32 9) [] encrypting
      >>= λ secret. encrypt no_cipher cbc (replicate 32 7) (replicate 16 1) secret [] decrypting)
    ≡ ok (replicate 32 9)
encrypt-encrypt_example =
    encrypt-encrypt no_cipher cbc (replicate 32 7) (replicate 16 1) (replicate 32 9) no_cipher-IsAes
      (record { key_whole = refl; iv_whole = refl; not_empty = omega arith; whole_blocks = refl })

abbrev short_key : Bytes
short_key = replicate 31 7

abbrev nothing : Bytes
nothing = []

abbrev four_leaves : PositionMap
four_leaves = record { map = 3 ∷ 0 ∷ 2 ∷ 1 ∷ []; capacity = 4 }

moved : set four_leaves 2 0 ≡ ok (record { map = 3 ∷ 0 ∷ 0 ∷ 1 ∷ []; capacity = 4 })
unfolding set check_capacity
moved = refl

get-after_set_example :
    get (record { map = 3 ∷ 0 ∷ 0 ∷ 1 ∷ []; capacity = 4 }) 3
    ≡ (if 3 == 2 then ok 0 else get four_leaves 3)
get-after_set_example =
    get-after_set four_leaves (record { map = 3 ∷ 0 ∷ 0 ∷ 1 ∷ []; capacity = 4 }) 2 0 3
      (record { cells = refl }) moved

load_from_file-store_to_file_example :
    (file : Bytes) × (store_to_file four_leaves true ≡ ok file)
    × (load_from_file (record { map = 9 ∷ 9 ∷ 9 ∷ 9 ∷ []; capacity = 4 }) (some file)
        ≡ ok four_leaves)
load_from_file-store_to_file_example =
    load_from_file-store_to_file four_leaves (record { map = 9 ∷ 9 ∷ 9 ∷ 9 ∷ []; capacity = 4 })
      refl refl refl (omega arith, (omega arith, (omega arith, (omega arith, tt))))

-- One block, with no room for another, and the same with room.
abbrev full : Stash
full = record { stash = (1, 7 ∷ []) ∷ []; capacity = 1 }

abbrev roomy : Stash
roomy = record { stash = (1, 7 ∷ []) ∷ []; capacity = 2 }

full-Overflows : Overflows full 2
unfolding current_size exists contains
full-Overflows = (refl, refl)

not_full : ¬ Overflows roomy 2
unfolding current_size exists contains
not_full h = omega (arith, h.0)

roomy-IsValid : StashLaws.IsValid roomy
unfolding current_size lookup
roomy-IsValid = record { distinct = (refl, tt); bounded = omega arith }

add_ok_example :
    (u : Stash) × (add roomy 2 (8 ∷ []) ≡ ok u)
    × (u.capacity ≡ 2)
    × ((other : ℕ)
        → find u other ≡ (
            if other == 2
            then elim (find roomy 2) [ none ↦ some (8 ∷ []) | some old ↦ some old ]
            else find roomy other))
add_ok_example = add_ok roomy 2 (8 ∷ []) not_full

update_ok_example :
    (u : Stash) × (update roomy 2 (8 ∷ []) ≡ ok u)
    × (u.capacity ≡ 2)
    × ((other : ℕ) → find u other ≡ (if other == 2 then some (8 ∷ []) else find roomy other))
update_ok_example = update_ok roomy 2 (8 ∷ []) not_full

added : add roomy 2 (8 ∷ []) ≡ ok (record { stash = (2, 8 ∷ []) ∷ (1, 7 ∷ []) ∷ []; capacity = 2 })
unfolding add check_overflow insert contains
added = refl

updated : update roomy 1 (8 ∷ []) ≡ ok (record { stash = (1, 8 ∷ []) ∷ []; capacity = 2 })
unfolding update check_overflow assign contains
updated = refl

get_all-perm_example : Permᴰ ((1, 7 ∷ []) ∷ []) (get_all roomy (λ n. n) [])
get_all-perm_example = get_all-perm roomy (λ n. n)
