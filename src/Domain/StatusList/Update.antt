-- ===== src/Domain/StatusList/Update.antt =====
-- `StatusList::create` and `StatusList::update` of src/domain/models/status_list.rs against the
-- abstract view: a list is the function from an index to the number of its status.
use status_list_server.Base.{
  ℕ, ◌^◌, ◌<◌, ◌≤◌, List, [], ◌∷◌, replicate, ◌≡◌, ap, ◌∙◌, refl, arith, ok, none, inl, is_empty,
  false, length-replicate,
}
use status_list_server.Domain.Model.{StatusEntry, StatusList}
use status_list_server.Domain.StatusList.{
  Codec, IsCodec, decode_compressed, create_with_bits, create,
}
use status_list_server.Domain.StatusList.Packed.{slot-zeros, replicate-IsPacked}
use status_list_server.Domain.Bitpack.Byte.{u8}
use status_list_server.Domain.Bitpack.Width.Bounds.{IsRequest, determine_bits-IsBatchWidth}
use status_list_server.Domain.Bitpack.Width.Length.{calculate_array_size-eq}
use status_list_server.Domain.Bitpack.Write.Updates.{code, All, last_value}
use status_list_server.Domain.StatusList.Encoded.{Denotes, store}

module _ (c : Codec) (laws : IsCodec c) where
  -- For a codec that keeps its laws, a width of 1 to 32 bits and a non-empty batch of requests
  -- whose values fit that width, `create_with_bits` succeeds with a list of that width that
  -- denotes the last status given for each index, and 0 elsewhere.
  pub create_with_bits-Denotes :
      (bits : ℕ) (updates : List StatusEntry)
      → is_empty updates ≡ false
      → All IsRequest updates
      → All (λ u. code u.status < 2 ^ bits) updates
      → 1 ≤ bits
      → bits ≤ 32
      → (list : StatusList) × (create_with_bits c updates bits ≡ ok list)
        × (list.bits ≡ bits)
        × Denotes c list (λ i. last_value updates i 0)
  unfolding create_with_bits
  create_with_bits-Denotes bits updates some_update requests holds p q =
      let (len, sized, l) = calculate_array_size-eq updates bits some_update requests p in
      let width : u8 bits ≡ bits = omega arith in
      let zeros = replicate-IsPacked bits len updates p q l in
      let s =
        store c laws bits len updates (replicate len 0) zeros requests holds l
          (omega (arith, length-replicate {A = ℕ} len 0)) in
      (
        record { bits = u8 bits; lst = s.lst },
        rw (sized, s.applied, s.encoded) refl,
        width,
        record {
          array = s.after;
          decoded = s.decoded;
          packed = rw width s.packed;
          values = λ i. rw width (s.entries i ∙ ap (last_value updates i) (slot-zeros len bits i));
        },
      )

  pub create-Denotes :
      (entry : StatusEntry) (updates : List StatusEntry)
      → All IsRequest (entry ∷ updates)
      → (list : StatusList) × (create c (entry ∷ updates) ≡ ok list)
        × Denotes c list (λ i. last_value (entry ∷ updates) i 0)
  unfolding create create_with_bits
  create-Denotes entry updates requests =
      let (bits, width, w) =
        determine_bits-IsBatchWidth entry updates none requests (omega arith) in
      let (list, made, same, d) =
        create_with_bits-Denotes bits (entry ∷ updates) refl requests w.holds w.some_bits
          w.word_bits in
      (list, rw width made, d)

  -- For a codec that keeps its laws, `create` of an empty batch succeeds with a list in which
  -- every entry is 0 (valid).
  pub create_empty-Denotes : (list : StatusList) × (create c [] ≡ ok list) × Denotes c list (λ i. 0)
  unfolding create decode_compressed
  create_empty-Denotes = (
    record { bits = 1; lst = "" },
    refl,
    record {
      array = [];
      decoded = rw (laws.decodes_empty, laws.inflates_empty) refl;
      packed = record {
        some_bits = omega arith;
        word_bits = omega arith;
        bytes = λ i. omega arith;
        aligned = omega arith;
        few = omega arith;
        coded = λ i. rw (slot-zeros 0 1 i) (inl (omega arith));
        blank = λ i h. slot-zeros 0 1 i;
      };
      values = slot-zeros 0 1;
    },
  )
