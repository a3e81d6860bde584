-- ===== src/Stash.antt =====
-- `InMemoryStashAdapter` of path-oram/src/stash-adapter.cpp.
pub mod Laws
pub mod Files
use path_oram.Prelude.{
  ℕ, Bool, ◌&&◌, not, List, [], ◌++◌, Option, none, some, length, ◌==◌, Outcome, ok, throw_if,
  stash_overflow, ◌>>=◌, ◌>>◌,
}
use path_oram.Prelude.Words.{Bytes}
use path_oram.Definitions.{Block}
use path_oram.Prelude.Assoc.{lookup, contains, insert, assign, erase}
use path_oram.Utility.Random.{Source}
use path_oram.Utility.Shuffle.{shuffle}

pub record Stash : Type 0 where
  pub stash : List Block
  pub capacity : ℕ

unfoldable pub new_stash : ℕ → Stash
new_stash capacity = record { stash = []; capacity = capacity }

-- The blocks go in front of what the caller's vector holds, and the whole vector is shuffled.
unfoldable pub get_all : Stash → Source → List Block → List Block
get_all t draws response = shuffle draws (t.stash ++ response)

unfoldable pub check_overflow : Stash → ℕ → Outcome (Unit {0})
check_overflow t block =
    throw_if (length t.stash == t.capacity && not (contains block t.stash)) stash_overflow

unfoldable pub add : Stash → ℕ → Bytes → Outcome Stash
unfolding check_overflow
add t block bytes = do check_overflow t block; ok (record t { stash = insert block bytes t.stash })

unfoldable pub update : Stash → ℕ → Bytes → Outcome Stash
unfolding check_overflow
update t block bytes = do
  check_overflow t block
  ok (record t { stash = assign block bytes t.stash })

-- The bytes that were found go in front of the response.
abbrev prepend : Option Bytes → Bytes → Bytes
prepend (some found) response = found ++ response
prepend none response = response

unfoldable pub get : Stash → ℕ → Bytes → Bytes
get t block response = prepend (lookup block t.stash) response

unfoldable pub remove : Stash → ℕ → Stash
remove t block = record t { stash = erase block t.stash }

unfoldable pub exists : Stash → ℕ → Bool
exists t block = contains block t.stash

unfoldable pub current_size : Stash → ℕ
current_size t = length t.stash
