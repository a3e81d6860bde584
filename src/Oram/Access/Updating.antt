-- ===== src/Oram/Access/Updating.antt =====
-- The middle of an access: the stash is updated, and answers.
use path_oram.Prelude.{
  ℕ, ◌^◌, ◌<◌, ◌≤◌, ◌≡◌, ◌≢◌, refl, sym, ap, ◌∙◌, Bool, true, false, ◌++◌, Option, none, some,
  length, ◌⊎◌, inl, inr, ok, eq-cases, ne→==_false, Option-cases, arith,
}
use path_oram.Prelude.Words.{Bytes}
use path_oram.Stash
use path_oram.Stash.{Stash}
use path_oram.Stash.Laws as StashLaws
use path_oram.Stash.Laws.{find, after_update}
use path_oram.Oram.Store.{Store, IsStore}
use path_oram.Oram.State.{Config, Oram}
use path_oram.Storage.Padding.{pad, length-pad}
use path_oram.Oram.Invariant.{Contents, put_contents, Mid}

-- The payload, if there is one, goes in front of the response.
abbrev pub answered : Option Bytes → Bytes → Bytes
answered none response = response
answered (some d) response = d ++ response

abbrev pub padded_answer : ℕ → Option Bytes → Option Bytes
padded_answer size none = none
padded_answer size (some d) = some (pad size d)

-- The answer has the expected payload in front of the response, or a shorter one that lacks zeroes at
-- its end.
pub record IsAnswer (size : ℕ) (expected : Option Bytes) (response answer : Bytes) : Type 0 where
  pub payload : Option Bytes
  pub expects : padded_answer size payload ≡ expected
  pub answers : answer ≡ answered payload response

-- The contents after a call of `access`.
abbrev pub accessed : Config → Contents → Bool → ℕ → Bytes → Contents
accessed c spec true block bytes = spec
accessed c spec false block bytes = put_contents spec block (pad c.data_size bytes)

put_contents_cases :
    (spec : Contents) (block : ℕ) (bytes : Bytes) (id : ℕ) (d : Bytes)
    → put_contents spec block bytes id ≡ some d
    → ((id ≡ block) × (bytes ≡ d)) ⊎ ((id ≢ block) × (spec id ≡ some d))
put_contents_cases spec block bytes id d e = elim (eq-cases id block) [
  | inl same ↦ inl (same, ground arith)
  | inr ne ↦ inr (ne, ground arith)
]

put_contents_other :
    (spec : Contents) (block : ℕ) (bytes : Bytes) (id : ℕ)
    → id ≢ block
    → put_contents spec block bytes id ≡ spec id
put_contents_other spec block bytes id ne = rw (ne→==_false id block ne) refl

module _ (c : Config) {store : Store} (good : IsStore store (2 ^ c.height) c.z c.data_size) where
  -- After the path is read, the stash holds the block if anything does.
  find-Mid :
      (spec : Contents) (block leaf : ℕ) (o : Oram store)
      → Mid c good spec block leaf o
      → padded_answer c.data_size (find o.stash block) ≡ spec block
  find-Mid spec block leaf o mid = elim (Option-cases (find o.stash block)) [
    | inr (d, e) ↦ ap (padded_answer c.data_size) e ∙ sym (mid.stash_sound block d e)
    | inl empty ↦ elim (Option-cases (spec block)) [
      | inl absent ↦ ap (padded_answer c.data_size) empty ∙ sym absent
      | inr (d, present) ↦ elim (mid.complete block d present) [
        | inl (d', found) ↦ absurd (ground arith)
        | inr (ne, elsewhere) ↦ absurd (ne refl)
      ]
    ]
  ]

  pub get-IsAnswer :
      (spec : Contents) (block leaf : ℕ) (o : Oram store) (response : Bytes)
      → Mid c good spec block leaf o
      → IsAnswer c.data_size (spec block) response (Stash.get o.stash block response)
  get-IsAnswer spec block leaf o response mid = record {
    payload = find o.stash block;
    expects = find-Mid spec block leaf o mid;
    answers = ground (arith, StashLaws.get_lem o.stash block response);
  }

  pub update-Mid :
      (spec : Contents) (block leaf : ℕ) (bytes : Bytes) (o : Oram store)
      → block < o.map.capacity
      → length bytes ≤ c.data_size
      → Mid c good spec block leaf o
      → Stash.update o.stash block bytes ≡ ok (after_update o.stash block bytes)
      → Mid c good
          (put_contents spec block (pad c.data_size bytes))
          block
          leaf
          (record o { stash = after_update o.stash block bytes })
  update-Mid spec block leaf bytes o below size mid e =
      let whole = pad c.data_size bytes in
      let updated = StashLaws.find-after_update o.stash block bytes in
      record {
        readable = record {
          positive = mid.readable.positive;
          sound = mid.readable.sound;
          cached = mid.readable.cached;
        };
        mapped = record {
          cells = mid.mapped.cells;
          numbered = mid.mapped.numbered;
          proper = mid.mapped.proper;
          known = λ id d at. elim (put_contents_cases spec block whole id d at) [
            | inl (same, payload) ↦
                (rw same below, ap length (sym payload) ∙ length-pad c.data_size bytes size)
            | inr (ne, old) ↦ mid.mapped.known id d old
          ];
        };
        stash_valid = StashLaws.update-IsValid o.stash block bytes mid.stash_valid e;
        stash_sound = λ id d found. elim (eq-cases id block) [
          | inl same ↦ ground (arith, updated id)
          | inr ne ↦ ground (arith, updated id, mid.stash_sound id d)
        ];
        tree_sound = λ l x less off m. elim (mid.tree_sound l x less off m) [
          | inl dummy ↦ inl dummy
          | inr (ne, sound, on) ↦ inr (ne, put_contents_other spec block whole x.0 ne ∙ sound, on)
        ];
        complete = λ id d at. elim (put_contents_cases spec block whole id d at) [
          | inl (same, payload) ↦ inl (bytes, ground (arith, updated id))
          | inr (ne, old) ↦ elim (mid.complete id d old) [
            | inl (d', found) ↦ inl (d', ground (arith, updated id))
            | inr there ↦ inr there
          ]
        ];
      }
