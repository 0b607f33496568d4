-- ===== src/Stun/Attributes.antt =====
-- The attribute loop: it ends, and on a well-formed list of attributes it reads each of them once,
-- in order.
use zao_p2p.Prelude.{
  ℕ, zero, suc, ◌+◌, ◌-◌, ◌*◌, ◌^◌, ◌<◌, ◌≤◌, ◌≡◌, ◌≢◌, refl, ap, ◌∙◌, none, some, List, [], ◌∷◌,
  ◌++◌, length, length-append, length-replicate, replicate, arith,
}
use mathlib.Core.List.{append_assoc}
use zao_p2p.Prelude.Bytes.{
  Bytes, to_be_bytes, from_be_bytes, slice, slice_middle, length-to_be_bytes,
  from_be_bytes-to_be_bytes,
}
use zao_p2p.Transfer.{div_ceil}
use zao_p2p.Stun.{Found, walk_attributes, match_attribute}

-- The loop ends, with fuel above the bytes that are left.
pub walk_attributes_total :
    (fuel : ℕ) (bytes : Bytes) (attrs_end offset : ℕ) (found : Found)
    → attrs_end - offset < fuel
    → walk_attributes fuel bytes attrs_end offset found ≢ none
unfolding walk_attributes
walk_attributes_total zero bytes attrs_end offset found h = elim h [ ]
walk_attributes_total (suc fuel) bytes attrs_end offset found h = ground (
  arith,
  walk_attributes_total fuel bytes attrs_end
      (offset + 4 + div_ceil (from_be_bytes (slice bytes (offset + 2) (offset + 4))) 4 * 4)
      (match_attribute (from_be_bytes (slice bytes offset (offset + 2)))
        (slice bytes (offset + 4)
          (offset + 4 + from_be_bytes (slice bytes (offset + 2) (offset + 4))))
        found),
)

pub record Attribute : Type 0 where
  pub attr_type : ℕ
  pub value : Bytes

abbrev pub IsAttribute : Attribute → Type 0
IsAttribute a = (a.attr_type < 2 ^ 16) × (length a.value < 2 ^ 16)

abbrev pub AllAttributes : List Attribute → Type 0
AllAttributes [] = Unit
AllAttributes (a ∷ as') = IsAttribute a × AllAttributes as'

padding : ℕ → Bytes
padding n = replicate (div_ceil n 4 * 4 - n) 0

-- [type: u16][length: u16][value, padded to 4 bytes]
unfoldable pub encode_attribute : Attribute → Bytes
unfolding padding
encode_attribute a =
    to_be_bytes 2 a.attr_type
    ++ (to_be_bytes 2 (length a.value) ++ (a.value ++ padding (length a.value)))

abbrev pub encode_attributes : List Attribute → Bytes
encode_attributes [] = []
encode_attributes (a ∷ as') = encode_attribute a ++ encode_attributes as'

-- The reference: each attribute is matched once, in order.
abbrev pub match_attributes : List Attribute → Found → Found
match_attributes [] found = found
match_attributes (a ∷ as') found = match_attributes as' (match_attribute a.attr_type a.value found)

length-padding : (n : ℕ) → n + length (padding n) ≡ div_ceil n 4 * 4
unfolding padding div_ceil
length-padding n = ground (arith, length-replicate {A = ℕ} (div_ceil n 4 * 4 - n) 0)

length-encode_attribute :
    (a : Attribute) → length (encode_attribute a) ≡ 4 + div_ceil (length a.value) 4 * 4
length-encode_attribute a =
    unfold encode_attribute in
    rw
      (
        length-append (to_be_bytes 2 a.attr_type) _,
        length-append (to_be_bytes 2 (length a.value)) _,
        length-append a.value _,
        length-to_be_bytes 2 a.attr_type,
        length-to_be_bytes 2 (length a.value),
        length-padding (length a.value),
      )
      (omega arith)

-- The three fields of the attribute that stands behind `front`.
module _ (front : Bytes) (a : Attribute) (back : Bytes) (offset : ℕ)
    (at_front : length front ≡ offset) where
  type_field :
      slice (front ++ (encode_attribute a ++ back)) offset (offset + 2) ≡ to_be_bytes 2 a.attr_type
  type_field =
      unfold encode_attribute in
      rw (append_assoc (to_be_bytes 2 a.attr_type) _ back) (
        slice_middle front (to_be_bytes 2 a.attr_type) _ offset (offset + 2) at_front
          (ap (λ (n : ℕ). offset + n) (length-to_be_bytes 2 a.attr_type)))

  length_field :
      slice (front ++ (encode_attribute a ++ back)) (offset + 2) (offset + 4)
      ≡ to_be_bytes 2 (length a.value)
  length_field =
      unfold encode_attribute in
      rw
        (
          append_assoc (to_be_bytes 2 a.attr_type) _ back,
          append_assoc (to_be_bytes 2 (length a.value)) _ back,
          ← append_assoc front (to_be_bytes 2 a.attr_type) _,
        )
        (slice_middle (front ++ to_be_bytes 2 a.attr_type) (to_be_bytes 2 (length a.value)) _
          (offset + 2) (offset + 4)
          (rw (length-append front _, length-to_be_bytes 2 a.attr_type) (omega arith))
          (rw (length-to_be_bytes 2 (length a.value)) (omega arith)))

  value_field :
      slice (front ++ (encode_attribute a ++ back)) (offset + 4) (offset + 4 + length a.value)
      ≡ a.value
  value_field =
      unfold encode_attribute in
      rw
        (
          append_assoc (to_be_bytes 2 a.attr_type) _ back,
          append_assoc (to_be_bytes 2 (length a.value)) _ back,
          append_assoc a.value _ back,
          ← append_assoc front (to_be_bytes 2 a.attr_type) _,
          ← append_assoc (front ++ to_be_bytes 2 a.attr_type) (to_be_bytes 2 (length a.value)) _,
        )
        (slice_middle ((front ++ to_be_bytes 2 a.attr_type) ++ to_be_bytes 2 (length a.value))
          a.value _ (offset + 4) (offset + 4 + length a.value)
          (rw
            (
              length-append (front ++ to_be_bytes 2 a.attr_type) _,
              length-append front _,
              length-to_be_bytes 2 a.attr_type,
              length-to_be_bytes 2 (length a.value),
            )
            (omega arith))
          refl)

-- One round of the loop, on an attribute of `n` bytes that lies in the data.
walk_attributes_round :
    (fuel : ℕ) (bytes : Bytes) (attrs_end offset : ℕ) (found : Found) (t n : ℕ) (v : Bytes)
    → from_be_bytes (slice bytes offset (offset + 2)) ≡ t
    → from_be_bytes (slice bytes (offset + 2) (offset + 4)) ≡ n
    → slice bytes (offset + 4) (offset + 4 + n) ≡ v
    → offset + 4 ≤ attrs_end
    → offset + 4 + n ≤ length bytes
    → walk_attributes (suc fuel) bytes attrs_end offset found
      ≡ walk_attributes fuel bytes attrs_end
          (offset + 4 + div_ceil n 4 * 4)
          (match_attribute t v found)
unfolding walk_attributes
walk_attributes_round fuel bytes attrs_end offset found t n v et en ev h1 h2 =
    rw (et, en, ev) (ground arith)

div_ceil-ge : (n : ℕ) → n ≤ div_ceil n 4 * 4
div_ceil-ge n = omega (arith, length-padding n)

-- The loop over encoded attributes, from where they begin.
pub walk_attributes-encode_attributes :
    (as' : List Attribute) (fuel : ℕ) (front : Bytes) (offset : ℕ) (found : Found)
    → AllAttributes as'
    → length front ≡ offset
    → length (encode_attributes as') < fuel
    → walk_attributes fuel
        (front ++ encode_attributes as')
        (length (front ++ encode_attributes as'))
        offset
        found
      ≡ some (match_attributes as' found)
walk_attributes-encode_attributes as' zero front offset found fits at_front h = elim h [ ]
walk_attributes-encode_attributes [] (suc fuel) front offset found fits at_front h =
    unfold walk_attributes in ground (arith, length-append front [])
walk_attributes-encode_attributes (a ∷ as') (suc fuel) front offset found (fit, fits) at_front h =
    walk_attributes_round fuel _ _ offset found a.attr_type (length a.value) a.value
      (rw (type_field front a (encode_attributes as') offset at_front)
        (from_be_bytes-to_be_bytes 2 a.attr_type fit.0))
      (rw (length_field front a (encode_attributes as') offset at_front)
        (from_be_bytes-to_be_bytes 2 (length a.value) fit.1))
      (value_field front a (encode_attributes as') offset at_front)
      (omega (arith, size, div_ceil-ge (length a.value)))
      (omega (arith, size, div_ceil-ge (length a.value)))
    ∙ rw (← append_assoc front (encode_attribute a) (encode_attributes as')) (
        walk_attributes-encode_attributes as' fuel (front ++ encode_attribute a)
          (offset + 4 + div_ceil (length a.value) 4 * 4) (match_attribute a.attr_type a.value found)
          fits
          (rw (length-append front (encode_attribute a)) (omega (arith, length-encode_attribute a)))
          (omega (arith, rest_size)))
  where
    size :
        length (front ++ (encode_attribute a ++ encode_attributes as'))
        ≡ offset + (4 + div_ceil (length a.value) 4 * 4) + length (encode_attributes as')
    size =
        rw
          (
            length-append front _,
            length-append (encode_attribute a) _,
            length-encode_attribute a,
            at_front,
          )
          (omega arith)

    rest_size : length (encode_attributes as') < fuel
    rest_size = omega (
      arith,
      length-append (encode_attribute a) (encode_attributes as'),
      length-encode_attribute a,
    )
