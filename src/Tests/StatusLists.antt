-- ===== src/Tests/StatusLists.antt =====
-- The theorems on the lists and their packed arrays, at concrete lists and arrays.
use status_list_server.Base.{get_or, ℕ, ◌^◌, ◌<◌, List, [], ◌∷◌, ok, ◌≡◌, refl, arith}
use status_list_server.Domain.Model.{suspended, invalid, StatusList}
use status_list_server.Domain.StatusList.{create}
use status_list_server.Domain.StatusList.Encoded.{Denotes}
use status_list_server.Domain.StatusList.Update.{create-Denotes}
use status_list_server.Domain.Bitpack.Width.{status_value}
use status_list_server.Domain.Bitpack.Write.{apply_updates}
use status_list_server.Domain.Bitpack.Write.Updates.{last_value, IsUpdated, apply_updates-IsUpdated}
use status_list_server.Tests.Fixture.{tallies, tallies-IsCodec, entry, batch, batch-IsRequest}

abbrev empty_list : StatusList
empty_list = record { bits = 1; lst = "" }

zero_bytes : (i : ℕ) → get_or (0 ∷ 0 ∷ []) i 0 < 2 ^ 8
zero_bytes i = ground arith

-- Twelve bits from bit 3: the value spans two bytes.

apply_updates-IsUpdated_example :
    (after : List ℕ) × (apply_updates (0 ∷ 0 ∷ []) batch 2 ≡ ok after)
    × IsUpdated 2 batch (0 ∷ 0 ∷ []) after
apply_updates-IsUpdated_example =
    apply_updates-IsUpdated 2 batch (0 ∷ 0 ∷ []) (omega arith) (omega arith) zero_bytes (
      record {
        natural = refl;
        coded = unfold status_value in refl;
        narrow = omega arith;
        room = omega arith;
      },
      (
        record {
          natural = refl;
          coded = unfold status_value in refl;
          narrow = omega arith;
          room = omega arith;
        },
        tt,
      ),
    )

abbrev created :
    (list : StatusList) × (create tallies batch ≡ ok list)
    × Denotes tallies list (λ i. last_value batch i 0)
created =
    create-Denotes tallies tallies-IsCodec (entry 5 suspended) (entry 1 invalid ∷ [])
      batch-IsRequest
