-- ===== src/Aml/Expression/Operations.antt =====
-- aml/src/expression.rs: the closures of the operators, on the operands that their parsers read. Sums
-- and differences of 64 bits wrap, as release builds have them.
use Prim.Native.Nat.{bit_and}
use acpi_rs.Prelude.{
  ℕ, ◌+◌, ◌-◌, ◌*◌, ◌/◌, ◌%◌, ◌^◌, ltb, leb, ◌==◌, Bool, true, false, ◌&&◌, ◌||◌, List, [], ◌∷◌,
  ◌++◌, length, take, drop, replicate, Ordering, ok, err, panic, if◌then◌else◌,
}
use acpi_rs.BitField.{BitField}
use acpi_rs.Bytes.{le_bytes, wrapping_sum}
use acpi_rs.Bytes.Bits.{BitVec}
use acpi_rs.Bytes.Slices.{slice}
use acpi_rs.Aml.Types.{
  AmlType, Result, malformed_buffer, resource_descriptor_too_short, invalid_shift_left,
  invalid_shift_right, type_cannot_be_sliced, incompatible_value_conversion,
}
use acpi_rs.Aml.NameString.{Target}
use acpi_rs.Aml.Value.{AmlValue, boolean, integer, string, buffer, type_of, as_bool, as_concat_type}
use acpi_rs.Aml.Context.{Handler}
use acpi_rs.Aml.Context.Store.{read_target}
use acpi_rs.Aml.Action.{
  Action, ◌>>=◌, ◌>>◌, pure, lift, ask, contents, new_buffer, integer_of, buffer_of, string_of,
  ordering_of, store_to,
}
use acpi_rs.Aml.Expression.Integers.{text_integer}

-- `index..`, and `index..(index + length)` where that ends inside.
unfoldable pub mid : List ℕ → ℕ → ℕ → Result (List ℕ)
unfolding slice
mid bytes index len =
    let last = (index + len) % 2 ^ 64 in
    if leb (length bytes) index
    then ok []
    else if leb (length bytes) last
    then ok (drop index bytes)
    else slice bytes index last

-- Whether a text may be cut at a byte: before a character of UTF-8 or at the end.
unfoldable pub is_char_boundary : List ℕ → ℕ → Bool
is_char_boundary text i = elim (drop i text) [
  | [] ↦ i == length text
  | b ∷ bs ↦ ltb b 128 || leb 192 b
]

unfoldable pub mid_text : List ℕ → ℕ → ℕ → Result (List ℕ)
unfolding mid is_char_boundary
mid_text text index len =
    let last = (index + len) % 2 ^ 64 in
    if leb (length text) index
    then ok []
    else if is_char_boundary text index && (leb (length text) last || is_char_boundary text last)
    then mid text index len
    else panic

-- The contents of a buffer of resources without the end tag; it may be empty.
unfoldable pub without_end_tag : List ℕ → List ℕ
without_end_tag bytes = take (length bytes - 2) bytes

-- The end tag with its checksum.
unfoldable pub with_end_tag : List ℕ → List ℕ
with_end_tag bytes =
    let tagged = bytes ++ 0x79 ∷ [] in tagged ++ ((256 - wrapping_sum 0 tagged) % 256) ∷ []

unfoldable pub concat_resources : List ℕ → List ℕ → Result (List ℕ)
unfolding without_end_tag with_end_tag
concat_resources left right =
    if length left == 1 || length right == 1
    then err resource_descriptor_too_short
    else ok (with_end_tag (without_end_tag left ++ without_end_tag right))

-- A buffer of `size` bytes that starts with `bytes`.
unfoldable pub filled : ℕ → List ℕ → Result (List ℕ)
filled size bytes =
    if ltb size (length bytes)
    then err malformed_buffer
    else if ltb size (2 ^ 63)
    then ok (bytes ++ replicate (size - length bytes) 0)
    else panic

unfoldable pub shifted_left : ℕ → ℕ → Result ℕ
shifted_left operand count =
    if ltb count 64 then ok (operand * 2 ^ count % 2 ^ 64) else err invalid_shift_left

unfoldable pub shifted_right : ℕ → ℕ → Result ℕ
shifted_right operand count =
    if ltb count 64 then ok (operand / 2 ^ count) else err invalid_shift_right

abbrev pub is_less : Ordering → Bool
is_less Ordering.lt = true
is_less _ = false

abbrev pub is_equal : Ordering → Bool
is_equal Ordering.eq = true
is_equal _ = false

abbrev pub is_greater : Ordering → Bool
is_greater Ordering.gt = true
is_greater _ = false

module _ {W : Type 0} ⦃bits : BitField⦄ ⦃bv : BitVec⦄ ⦃h : Handler W⦄ where
  -- The result, once it is stored.
  unfoldable pub stored : Target → AmlValue → Action W AmlValue
  stored target result = do store_to target result; pure result

  -- An operator on two integers, evaluated in their order.
  unfoldable pub on_integers :
      (ℕ → ℕ → Result ℕ) → (AmlValue × AmlValue) × Target → Action W AmlValue
  unfolding stored
  on_integers f ((left_arg, right_arg), target) = do
    left ← integer_of left_arg
    right ← integer_of right_arg
    result ← lift (f left right)
    stored target (integer result)

  unfoldable pub add : (AmlValue × AmlValue) × Target → Action W AmlValue
  unfolding on_integers
  add = on_integers (λ left right. ok ((left + right) % 2 ^ 64))

  unfoldable pub and : (AmlValue × AmlValue) × Target → Action W AmlValue
  unfolding on_integers
  and = on_integers (λ left right. ok (bit_and left right))

  unfoldable pub shift_left : (AmlValue × AmlValue) × Target → Action W AmlValue
  unfolding on_integers shifted_left
  shift_left = on_integers shifted_left

  unfoldable pub shift_right : (AmlValue × AmlValue) × Target → Action W AmlValue
  unfolding on_integers shifted_right
  shift_right = on_integers shifted_right

  unfoldable pub make_buffer : AmlValue → List ℕ → Action W AmlValue
  unfolding filled
  make_buffer size_arg bytes = do
    size ← integer_of size_arg
    whole ← lift (filled size bytes)
    new_buffer whole

  -- The text of the right operand of a concatenation.
  unfoldable pub right_text : AmlValue → AmlValue → Action W (List ℕ)
  right_text right (string text) = pure text
  right_text right (integer _) = string_of right
  right_text right (buffer _) = string_of right
  right_text right _ = lift panic

  -- The `match` on the left operand.
  unfoldable pub concatenated : AmlValue → AmlValue → Action W AmlValue
  unfolding right_text as_concat_type
  concatenated (integer left) right_arg = do
    right ← integer_of right_arg
    new_buffer (le_bytes 8 left ++ le_bytes 8 right)
  concatenated (buffer a) right_arg = do
    left ← contents a
    b ← buffer_of right_arg
    right ← contents b
    new_buffer (left ++ right)
  concatenated (string left) right_arg = do
    right ← right_text right_arg (as_concat_type right_arg)
    pure (string (left ++ right))
  concatenated _ right_arg = lift panic

  unfoldable pub concat : (AmlValue × AmlValue) × Target → Action W AmlValue
  unfolding concatenated as_concat_type stored
  concat ((left, right), target) = do
    result ← concatenated (as_concat_type left) right
    stored target result

  -- Both buffers are locked at once.
  unfoldable pub concat_res : (AmlValue × AmlValue) × Target → Action W AmlValue
  unfolding concat_resources stored
  concat_res ((left_arg, right_arg), target) = do
    a ← buffer_of left_arg
    b ← buffer_of right_arg
    left ← contents a
    right ← contents b
    bytes ← lift (concat_resources left right)
    result ← (if a == b then lift panic else new_buffer bytes)
    stored target result

  unfoldable pub increment : Target → Action W AmlValue
  unfolding stored
  increment addend = do
    held ← ask (λ c. read_target c addend)
    value ← integer_of held
    stored addend (integer ((value + 1) % 2 ^ 64))

  unfoldable pub decrement : Target → Action W AmlValue
  unfolding stored
  decrement minuend = do
    held ← ask (λ c. read_target c minuend)
    value ← integer_of held
    stored minuend (integer ((value + (2 ^ 64 - 1)) % 2 ^ 64))

  unfoldable pub logical_or : AmlValue × AmlValue → Action W AmlValue
  logical_or (left_arg, right_arg) = do
    left ← lift (as_bool left_arg)
    right ← lift (as_bool right_arg)
    pure (boolean (left || right))

  -- A comparison, by what is asked of the order.
  unfoldable pub compared : (Ordering → Bool) → AmlValue × AmlValue → Action W AmlValue
  compared test (left_arg, right_arg) = do
    order ← ordering_of left_arg right_arg
    pure (boolean (test order))

  -- The part of a buffer or a text.
  unfoldable pub sliced : AmlValue → ℕ → ℕ → Action W AmlValue
  unfolding mid mid_text type_of
  sliced (buffer a) index len = do
    bytes ← contents a
    part ← lift (mid bytes index len)
    new_buffer part
  sliced (string text) index len = do part ← lift (mid_text text index len); pure (string part)
  sliced source index len = lift (err (type_cannot_be_sliced (type_of source)))

  unfoldable pub middle : ((AmlValue × AmlValue) × AmlValue) × Target → Action W AmlValue
  unfolding sliced stored
  middle (((source, index_arg), length_arg), target) = do
    index ← integer_of index_arg
    len ← integer_of length_arg
    result ← sliced source index len
    stored target result

  unfoldable pub converted : AmlValue → Action W AmlValue
  unfolding text_integer type_of
  converted (integer value) = pure (integer value)
  converted (buffer a) = do value ← integer_of (buffer a); pure (integer value)
  converted (string text) = do value ← lift (text_integer text); pure (integer value)
  converted operand = lift (err (incompatible_value_conversion (type_of operand) AmlType.integer))

  unfoldable pub to_integer : AmlValue × Target → Action W AmlValue
  unfolding converted stored
  to_integer (operand, target) = do result ← converted operand; stored target result
