-- ===== src/Oram/Access/Multiple.antt =====
-- `ORAM::multiple` against the same requests to a plain map.
use path_oram.Prelude.{ℕ, ◌-◌, ◌<◌, ◌≤◌, List, [], ◌∷◌, ◌++◌, All, length, take, replicate, ◌==◌}
use path_oram.Prelude.Words.{Bytes}
use path_oram.Definitions.{Block}
use path_oram.PositionMap.Laws as PositionMapLaws
use path_oram.Oram.Store.{Store}
use path_oram.Oram.State.{Config, Oram}
use path_oram.Oram.Access.Updating.{IsAnswer, accessed}
use path_oram.Oram.Invariant.{Contents}

-- The contents after the requests, of which those without a payload read.
abbrev pub all_accessed : Config → Contents → List Block → Contents
all_accessed c spec [] = spec
all_accessed c spec (r ∷ requests) =
    all_accessed c (accessed c spec (length r.1 == 0) r.0 r.1) requests

-- Each answer has what its block holds after its request, in front of its response cell.
abbrev pub AreAnswered : Config → Contents → List Block → List Bytes → List Bytes → Type 0
AreAnswered c spec [] cells [] = Unit
AreAnswered c spec [] cells (answer ∷ answers) = ⊥
AreAnswered c spec (r ∷ requests) (cell ∷ cells) (answer ∷ answers) =
    let spec' = accessed c spec (length r.1 == 0) r.0 r.1 in
    IsAnswer c.data_size (spec' r.0) cell answer × AreAnswered c spec' requests cells answers
AreAnswered c spec (r ∷ requests) cells answers = ⊥

-- The block is in the position map, and its payload is not longer than a block.
abbrev pub AreRequests : (capacity size : ℕ) → List Block → Type 0
AreRequests capacity size requests = All (λ r. (r.0 < capacity) × (length r.1 ≤ size)) requests

-- `response.resize(requests.size())`
abbrev pub resize_cells : ℕ → List Bytes → List Bytes
resize_cells n response =
    let resized = take n response in resized ++ replicate (n - length resized) []
